-- ===== src/Interleaving/Laws.antt =====
-- On check_state of fuzz/xnu/osfmk/api/osfmk_backend.c.
use sock_fuzzer.Common.{
  ℕ, zero, suc, ◌+◌, ◌≤◌, ◌<◌, ◌≡◌, ◌≢◌, ◌↔◌, refl, ap, sym, ◌∙◌, Bool, true, false, some, List, [],
  ◌∷◌, ◌++◌, Stop, Outcome, ok, stop, aborted, if◌then◌else◌, ◌==◌, ◌>>=◌, length, get_elem?, take,
  arith, append_assoc, get_elem?-middle, Bool-cases, inl, inr, length-append,
}
use sock_fuzzer.Interleaving.{TestState, host_test_init, check_state, run_checks}

-- How many checks must come in order for the test to abort.
abbrev pub wanted : List ℕ → TestState → ℕ
wanted order s = if s.num_expected == 0 then length order else s.num_expected

kept : (k m : ℕ) → 0 < m → (if m == 0 then k else m) ≡ m
kept k m h = ground arith

bind-stop :
    {A B : Type 0} (m : Outcome A) (f : A → B) (e : Stop)
    → ((m >>= (λ a. ok (f a))) ≡ stop e) ↔ (m ≡ stop e)
bind-stop (ok a) f e = (λ h. cc, λ h. cc)
bind-stop (stop e') f e = (λ h. cc, λ h. cc)

module _ (order : List ℕ) where
  -- The first of several checks.
  run_checks-first :
      (id : ℕ) (ids : List ℕ) (s s' : TestState) (passed : Bool)
      → check_state order id s ≡ ok (passed, s')
      → (run_checks order (id ∷ ids) s ≡ stop aborted) ↔ (run_checks order ids s' ≡ stop aborted)
  unfolding run_checks
  run_checks-first id ids s s' passed e =
      rw e (bind-stop (run_checks order ids s') (λ r. (passed ∷ r.0, r.1)) aborted)

  -- Once failed, the test never aborts.
  run_checks-failed :
      (ids : List ℕ) (s : TestState) → s.failed ≡ true → run_checks order ids s ≢ stop aborted
  unfolding run_checks check_state
  run_checks-failed [] s e h = cc
  run_checks-failed (id ∷ ids) s e h =
      run_checks-failed ids s e ((run_checks-first id ids s s false (ground arith)).0 h)

  module _ (id x : ℕ) (s : TestState) (f : s.failed ≡ false)
      (here : get_elem? order s.current_index ≡ some x) where
    check_state-wrong :
        (id == x) ≡ false
        → check_state order id s
          ≡ ok (false, record s { current_index = s.current_index + 1; failed = true })
    unfolding check_state
    check_state-wrong other = rw (here, other) (simp f refl)

    check_state-last :
        (id == x) ≡ true
        → wanted order s ≤ s.current_index + 1
        → check_state order id s ≡ stop aborted
    unfolding check_state
    check_state-last same le = ground (arith, here)

    check_state-right :
        (id == x) ≡ true
        → s.current_index + 1 < wanted order s
        → check_state order id s
          ≡ ok (
            true,
            record s { current_index = s.current_index + 1; num_expected = wanted order s },
          )
    unfolding check_state
    check_state-right same lt = ground (arith, here)

    -- A wrong check fails the test for good.
    run_checks-wrong :
        (ids rest : List ℕ) (d : ℕ)
        → (id == x) ≡ false
        → (run_checks order (id ∷ ids) s ≡ stop aborted)
          ↔ (take (suc d) (id ∷ ids) ≡ take (suc d) (x ∷ rest))
    run_checks-wrong ids rest d other =
        let next = run_checks-first id ids s _ false (check_state-wrong other) in
        (λ h. absurd (run_checks-failed ids _ refl (next.0 h)), λ h. absurd (ground arith))

  -- With `pre` of the order found and `rest` of it ahead, the test aborts exactly if the next
  -- checks are the next of the order, as many as are still wanted.
  run_checks-from :
      (ids pre rest : List ℕ) (d : ℕ) (s : TestState)
      → order ≡ pre ++ rest
      → s.failed ≡ false
      → s.current_index ≡ length pre
      → wanted order s ≡ length pre + suc d
      → suc d ≤ length rest
      → (run_checks order ids s ≡ stop aborted) ↔ (take (suc d) ids ≡ take (suc d) rest)
  unfolding run_checks check_state
  run_checks-from ids pre [] d s o f c w le = absurd (omega arith)
  run_checks-from [] pre (x ∷ rest) d s o f c w le =
      (λ h. absurd (ground arith), λ h. absurd (ground arith))
  run_checks-from (id ∷ ids) pre (x ∷ rest) zero s o f c w le =
      let here : get_elem? order s.current_index ≡ some x =
        rw (o, c) (get_elem?-middle pre rest x) in
      elim (Bool-cases (id == x)) [
        | inl same ↦ (
          λ h. ap (λ n. n ∷ []) (ground arith),
          λ h. rw (check_state-last id x s f here same (omega arith)) refl,
        )
        | inr other ↦ run_checks-wrong id x s f here ids rest zero other
      ]
  run_checks-from (id ∷ ids) pre (x ∷ rest) (suc d) s o f c w le =
      let here : get_elem? order s.current_index ≡ some x =
        rw (o, c) (get_elem?-middle pre rest x) in
      elim (Bool-cases (id == x)) [
        | inl same ↦
            (let alike : id ≡ x = ground arith in
              let n = length-append pre (x ∷ []) in
              let s' = record s {
                current_index = s.current_index + 1;
                num_expected = wanted order s;
              } in
              let still : wanted order s' ≡ wanted order s =
                kept (length order) (wanted order s) (omega (arith, w)) in
              let ih =
                run_checks-from ids (pre ++ x ∷ []) rest d s'
                  (o ∙ sym (append_assoc pre (x ∷ []) rest)) f (omega (arith, n))
                  (omega (arith, n, w, still)) (omega arith) in
              let next =
                run_checks-first id ids s s' true
                  (check_state-right id x s f here same (omega arith)) in
              (λ h. rw alike (ap (◌∷◌ x) (ih.0 (next.0 h))), λ h. next.1 (ih.1 (tails h))))
        | inr other ↦ run_checks-wrong id x s f here ids rest (suc d) other
      ]
    where
      tails : {xs ys : List ℕ} → id ∷ xs ≡ x ∷ ys → xs ≡ ys
      tails h = cc

-- With num_expected at most the length of the order, and the order not empty, the test aborts from
-- its start exactly if the checks made begin with the expected order, as far as num_expected, or
-- the whole of it where that is 0.
pub run_checks-found :
    (order ids : List ℕ) (s : TestState)
    → 0 < wanted order s
    → wanted order s ≤ length order
    → (run_checks order ids (host_test_init s) ≡ stop aborted)
      ↔ (take (wanted order s) ids ≡ take (wanted order s) order)
run_checks-found order ids s pos le = go (wanted order s) refl pos le
  where
    go :
        (m : ℕ)
        → wanted order s ≡ m
        → 0 < m
        → m ≤ length order
        → (run_checks order ids (host_test_init s) ≡ stop aborted) ↔ (take m ids ≡ take m order)
    go zero w pos' le' = absurd (omega arith)
    go (suc d) w pos' le' =
        run_checks-from order ids [] order d (host_test_init s) refl refl refl (omega (arith, w))
          le'
