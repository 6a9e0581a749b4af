-- ===== src/Cli/Bcast/Rows.antt =====
-- crates/missive-cli/src/bcast.rs: sorting the results by the index of their members.
use missive.Common.{ℕ, suc, ◌≤◌, ◌≡◌, refl, ap, ◌∙◌, List, [], ◌∷◌, ◌++◌, arith, sort_by, insert_by}
use missive.Cli.Bcast.{BcastMemberView}
use missive.Cli.Bcast.Runs.{compare_index}

abbrev pub Rows : Type 0
Rows = List (ℕ × BcastMemberView)

-- No row has an index below the bound.
abbrev pub From : ℕ → Rows → Type 0
From n [] = Unit
From n (row ∷ rows) = (n ≤ row.0) × From n rows

pub From-weaken : (n : ℕ) (rows : Rows) → From (suc n) rows → From n rows
From-weaken n [] h = tt
From-weaken n (row ∷ rows) h = (omega arith, From-weaken n rows h.1)

pub insert_by-From :
    (n : ℕ) (row : ℕ × BcastMemberView) (rows : Rows)
    → n ≤ row.0
    → From n rows
    → From n (insert_by compare_index row rows)
insert_by-From n row [] h all = (h, tt)
insert_by-From n row (next ∷ rows) h all = ground (arith, insert_by-From n row rows h all.1)

pub sort_by-From : (n : ℕ) (rows : Rows) → From n rows → From n (sort_by compare_index rows)
sort_by-From n [] h = tt
sort_by-From n (row ∷ rows) h =
    insert_by-From n row (sort_by compare_index rows) h.0 (sort_by-From n rows h.1)

pub insert_by-front :
    (n : ℕ) (view : BcastMemberView) (rows : Rows)
    → From (suc n) rows
    → insert_by compare_index (n, view) rows ≡ (n, view) ∷ rows
insert_by-front n view [] h = refl
insert_by-front n view (row ∷ rows) h = ground arith

-- Sorting moves the row with the least index to the front.
pub sort_by-least :
    (n : ℕ) (view : BcastMemberView) (before after : Rows)
    → From (suc n) (before ++ after)
    → sort_by compare_index (before ++ (n, view) ∷ after)
      ≡ (n, view) ∷ sort_by compare_index (before ++ after)
sort_by-least n view [] after h =
    insert_by-front n view (sort_by compare_index after) (sort_by-From (suc n) after h)
sort_by-least n view (row ∷ before) after h =
    ap (insert_by compare_index row) (sort_by-least n view before after h.1) ∙ ground arith

pub From-insert :
    (n : ℕ) (view : BcastMemberView) (before after : Rows)
    → From (suc n) (before ++ after)
    → From n (before ++ (n, view) ∷ after)
From-insert n view [] after h = (omega arith, From-weaken n after h)
From-insert n view (row ∷ before) after h = (omega arith, From-insert n view before after h.1)
