-- ===== src/Cli/Reduce/Plurality.antt =====
-- crates/missive-cli/src/reduce.rs: what the local vote reports.
use missive.Common.{
  zero, suc, ◌≤◌, ◌<◌, Ordering, true, false, some, List, [], ◌∷◌, max_by, is_gt, ◌≡◌, refl, sym,
  subst, ◌⊎◌, inl, inr, arith, In, at, max_by-greatest, count_by,
}
use missive.Common.Str.{Str, str_cmp, str_cmp-flip, str_cmp_refl, str_cmp_trans, str_cmp-eq}
use missive.Core.Error.{ok, err, validation_error}
use missive.Cli.Reduce.{ReduceInputView, gathered_inputs}
use missive.Cli.Reduce.Vote.{
  Tally, tally_inputs, compare_tallies, total_votes, vote_report, report_vote, local_vote,
}
use missive.Cli.Reduce.Tallies.{votes_for, votes, votes_of-tally_inputs, total_votes-tally_inputs}
use missive.Cli.Reduce.Winner.{Ascending, Ascending-tally_inputs, votes_of-In, votes_of-found}

compare_tallies_refl : (t : Tally) → is_gt (compare_tallies t t) ≡ false
compare_tallies_refl t = ground (arith, str_cmp_refl t.normalized)

compare_tallies_total :
    (s t : Tally) → is_gt (compare_tallies s t) ≡ true → is_gt (compare_tallies t s) ≡ false
compare_tallies_total s t h = ground (arith, str_cmp-flip s.normalized t.normalized)

-- Not above is transitive.
str_cmp_le_trans :
    (s t u : Str)
    → is_gt (str_cmp s t) ≡ false
    → is_gt (str_cmp t u) ≡ false
    → is_gt (str_cmp s u) ≡ false
str_cmp_le_trans s t u g h =
    elim (str_cmp s t) as (λ o. str_cmp s t ≡ o → is_gt o ≡ false → is_gt (str_cmp s u) ≡ false) [
      | Ordering.lt ↦ λ e p. ground (arith, str_cmp_trans s t u, str_cmp-eq t u, e)
      | Ordering.eq ↦ λ e p. subst (λ x. is_gt (str_cmp x u) ≡ false) (sym (str_cmp-eq s t e)) h
      | Ordering.gt ↦ λ e p. absurd cc
    ]
      refl g

compare_tallies_trans :
    (s t u : Tally)
    → is_gt (compare_tallies s t) ≡ false
    → is_gt (compare_tallies t u) ≡ false
    → is_gt (compare_tallies s u) ≡ false
compare_tallies_trans s t u g h =
    ground (arith, str_cmp_le_trans u.normalized t.normalized s.normalized)

-- No key has more votes than the winner, and none with as many stands before its key.
unfoldable pub IsPlurality : List ReduceInputView → Tally → Type 0
IsPlurality inputs winner =
    (1 ≤ winner.count)
    × (winner.count ≡ count_by (votes_for winner.normalized) inputs)
    × ((key : Str)
        → (count_by (votes_for key) inputs < winner.count)
          ⊎ ((count_by (votes_for key) inputs ≡ winner.count)
              × (is_gt (str_cmp winner.normalized key) ≡ false)))

Ascending-In :
    (tally : Tally) (tallies : List Tally) → Ascending tallies → In tally tallies → 1 ≤ tally.count
Ascending-In tally [] h (at i g) = absurd (ground arith)
Ascending-In tally (first ∷ tallies) (one, above, rest) (at zero g) = ground arith
Ascending-In tally (first ∷ tallies) (one, above, rest) (at (suc i) g) =
    Ascending-In tally tallies rest (at i g)

compare_tallies-le :
    (s t : Tally)
    → is_gt (compare_tallies s t) ≡ false
    → (s.count < t.count)
      ⊎ ((s.count ≡ t.count) × (is_gt (str_cmp t.normalized s.normalized) ≡ false))
compare_tallies-le s t h = ground arith

report_vote-ways :
    (debug : Str → Str) (tallies : List Tally)
    → ((total_votes tallies ≡ 0)
        × (report_vote debug tallies
            ≡ err (validation_error "vote reduction requires at least one text input")))
      ⊎ ((winner : Tally) × (max_by compare_tallies tallies ≡ some winner)
          × (report_vote debug tallies ≡ ok (vote_report debug winner tallies)))
unfolding report_vote
report_vote-ways debug [] = inl (refl, refl)
report_vote-ways debug (tally ∷ tallies) = inr (_, refl, refl)

winner-IsPlurality :
    (inputs : List ReduceInputView) (winner : Tally)
    → max_by compare_tallies (tally_inputs [] inputs) ≡ some winner
    → IsPlurality inputs winner
unfolding IsPlurality
winner-IsPlurality inputs winner h =
    let tallies = tally_inputs [] inputs in
    let ascending = Ascending-tally_inputs [] inputs tt in
    let (found, greatest) =
      max_by-greatest compare_tallies compare_tallies_refl compare_tallies_total
        compare_tallies_trans tallies winner h in
    let positive = Ascending-In winner tallies ascending found in
    let own = votes_of-In winner tallies ascending found in
    (
      positive,
      omega (arith, own, votes_of-tally_inputs winner.normalized [] inputs),
      λ key. elim (votes_of-found key tallies) [
        | inl none_left ↦
            inl (omega (arith, none_left, positive, votes_of-tally_inputs key [] inputs))
        | inr (tally, m, e) ↦
            let all_its = votes_of-In tally tallies ascending m in
            let count : count_by (votes_for tally.normalized) inputs ≡ tally.count =
              omega (arith, all_its, votes_of-tally_inputs tally.normalized [] inputs) in
            subst
              (λ k.
                (count_by (votes_for k) inputs < winner.count)
                ⊎ ((count_by (votes_for k) inputs ≡ winner.count)
                    × (is_gt (str_cmp winner.normalized k) ≡ false)))
              e
              (elim (compare_tallies-le tally winner (greatest tally m)) [
                | inl less ↦ inl (omega arith)
                | inr (same, least) ↦ inr (omega arith, least)
              ])
      ],
    )

-- The vote is an error exactly if no input has a text. Otherwise its report tells a winner with as
-- many votes as there are texts that normalize to its key, which no other key exceeds, and of those
-- with as many the least key; the total is the number of texts.
pub local_vote-IsPlurality :
    (debug : Str → Str) (provenance : List ReduceInputView)
    → let inputs = gathered_inputs provenance in
      let tallies = tally_inputs [] inputs in
      ((count_by votes inputs ≡ 0)
        × (local_vote debug provenance
            ≡ err (validation_error "vote reduction requires at least one text input")))
      ⊎ ((winner : Tally) × (local_vote debug provenance ≡ ok (vote_report debug winner tallies))
          × (total_votes tallies ≡ count_by votes inputs)
          × IsPlurality inputs winner)
local_vote-IsPlurality debug provenance =
    let inputs = gathered_inputs provenance in
    let total = total_votes-tally_inputs [] inputs in
    elim (report_vote-ways debug (tally_inputs [] inputs)) [
      | inl (empty, failed) ↦ inl (omega (arith, total), failed)
      | inr (winner, won, told) ↦
          inr (winner, told, omega (arith, total), winner-IsPlurality inputs winner won)
    ]
