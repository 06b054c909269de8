-- ===== src/Process/Laws.antt =====
-- On KillAllNonInitProcs and XNUReapInitChildren of fuzz/xnu/bsd/api/bsd_backend.c.
use sock_fuzzer.Common.{
  ℕ, zero, suc, ◌+◌, ◌≤◌, ◌≡◌, ◌≢◌, refl, ap, ◌∙◌, Bool, true, some, List, [], ◌∷◌, ◌++◌, map,
  length, set, replicate, if◌then◌else◌, ◌==◌, arith, append_assoc, Bool-cases, inl, inr,
  length-append, length-replicate, get_elem?-middle, set-middle,
}
use sock_fuzzer.Process.{
  Proc, kill, failed_to_kill, spared, collect_pids, kill_pids, count_left, kill_all_non_init_procs,
  Waited, reap_init_children,
}

module _ (kernproc initproc : ℕ) where
  -- The pids of the processes that are not spared.
  abbrev unspared : List Proc → List ℕ
  unspared [] = []
  unspared (p ∷ ps) = if spared kernproc initproc p then unspared ps else p.pid ∷ unspared ps

  -- The pids of the processes other than the kernel's and init.
  abbrev pub victims : List Proc → List ℕ
  victims [] = []
  victims (p ∷ ps) =
      if p.address == kernproc
      then victims ps
      else if p.address == initproc
      then victims ps
      else p.pid ∷ victims ps

  unspared-victims : (ps : List Proc) → unspared ps ≡ victims ps
  unspared-victims [] = refl
  unspared-victims (p ∷ ps) = ground (arith, unspared-victims ps)

  length-unspared : (ps : List Proc) → length (unspared ps) ≤ length ps
  length-unspared [] = omega arith
  length-unspared (p ∷ ps) = elim (Bool-cases (spared kernproc initproc p)) [
    | inl s ↦ simp s (omega (arith, length-unspared ps))
    | inr s ↦ simp s (omega (arith, length-unspared ps))
  ]

  count_left-unspared :
      (ps : List Proc) (n : ℕ) → count_left kernproc initproc ps n ≡ n + length (unspared ps)
  unfolding count_left
  count_left-unspared [] n = omega arith
  count_left-unspared (p ∷ ps) n = elim (Bool-cases (spared kernproc initproc p)) [
    | inl s ↦ simp s (count_left-unspared ps n)
    | inr s ↦ simp s (count_left-unspared ps (n + 1) ∙ omega arith)
  ]

  -- With `found` stored in front and room behind it, the other pids are stored after them.
  collect_pids-unspared :
      (ps : List Proc) (found room : List ℕ)
      → length (unspared ps) ≤ length room
      → (rest : List ℕ) × (collect_pids kernproc initproc ps (found ++ room) (length found)
          ≡ (found ++ (unspared ps ++ rest), length found + length (unspared ps)))
  unfolding collect_pids
  collect_pids-unspared [] found room le =
      (room, let none_more : length found + 0 ≡ length found = omega arith in rw none_more refl)
  collect_pids-unspared (p ∷ ps) found room le = elim (Bool-cases (spared kernproc initproc p)) [
    | inl s ↦
        (let le' : length (unspared ps) ≤ length room = simp s at le in
          let ih = collect_pids-unspared ps found room le' in (ih.0, simp s ih.1))
    | inr s ↦
        (let le' : suc (length (unspared ps)) ≤ length room = simp s at le in
          let ih = stored p ps found room le' (λ f r l. collect_pids-unspared ps f r l) in
          (ih.0, simp s ih.1))
  ]
    where
      stored :
          (p' : Proc) (ps' : List Proc) (found' room' : List ℕ)
          → suc (length (unspared ps')) ≤ length room'
          → ((f r : List ℕ)
              → length (unspared ps') ≤ length r
              → (rest : List ℕ) × (collect_pids kernproc initproc ps' (f ++ r) (length f)
                  ≡ (f ++ (unspared ps' ++ rest), length f + length (unspared ps'))))
          → (rest : List ℕ) × (collect_pids kernproc initproc ps'
                (set (found' ++ room') (length found') p'.pid)
                (length found' + 1)
              ≡ (
                found' ++ ((p'.pid ∷ unspared ps') ++ rest),
                length found' + suc (length (unspared ps')),
              ))
      stored p' ps' found' [] l ih = absurd (omega arith)
      stored p' ps' found' (r ∷ room') l ih =
          let (rest, e) = ih (found' ++ p'.pid ∷ []) room' (omega arith) in
          let n : length (found' ++ p'.pid ∷ []) ≡ length found' + 1 =
            length-append found' (p'.pid ∷ []) in
          let e' =
            rw
              (
                append_assoc found' (p'.pid ∷ []) room',
                append_assoc found' (p'.pid ∷ []) (unspared ps' ++ rest),
                n,
              )
              at e in
          let sum : length found' + 1 + length (unspared ps')
              ≡ length found' + suc (length (unspared ps')) =
            omega arith in
          (rest, rw (set-middle found' room' r p'.pid) (rw sum at e'))

-- The loop kills what is stored from `i` on.
kill_pids-stored :
    (todo done rest : List ℕ)
    → kill_pids (done ++ (todo ++ rest)) (length todo) (length done) ≡ map kill todo
unfolding kill_pids
kill_pids-stored [] done rest = refl
kill_pids-stored (x ∷ todo) done rest =
    let n : length (done ++ x ∷ []) ≡ length done + 1 = length-append done (x ∷ []) in
    let ih = kill_pids-stored todo (done ++ x ∷ []) rest in
    rw (get_elem?-middle done (todo ++ rest) x)
      (ap (◌∷◌ (kill x)) (rw (n, append_assoc done (x ∷ []) (todo ++ rest)) at ih))

-- With nprocs at least the number of processes, every process other than the kernel's and init gets
-- one SIGKILL, in the order of allproc, and no other process does. If processes other than these two
-- are left afterwards, their number is reported.
pub kill_all_non_init_procs-victims :
    (kernproc initproc nprocs : ℕ) (procs left : List Proc)
    → length procs ≤ nprocs
    → kill_all_non_init_procs kernproc initproc nprocs procs left
      ≡ map kill (victims kernproc initproc procs)
        ++ (if length (victims kernproc initproc left) == 0
            then []
            else failed_to_kill (length (victims kernproc initproc left)) ∷ [])
unfolding kill_all_non_init_procs
kill_all_non_init_procs-victims kernproc initproc nprocs procs left le =
    let same = unspared-victims kernproc initproc in
    let (rest, e) = rw (same procs) at (
      collect_pids-unspared kernproc initproc procs [] (replicate nprocs 0) (
        omega
          (arith, length-unspared kernproc initproc procs, length-replicate {A = ℕ} nprocs 0))) in
    let zero_more : 0 + length (victims kernproc initproc procs)
        ≡ length (victims kernproc initproc procs) =
      omega arith in
    let counted : count_left kernproc initproc left 0 ≡ length (victims kernproc initproc left) =
      rw (same left) at (count_left-unspared kernproc initproc left 0) ∙ omega arith in
    rw (e, zero_more, counted, kill_pids-stored (victims kernproc initproc procs) [] rest) refl

-- XNUReapInitChildren never reports that it reaped all children: it answers false whenever it ends,
-- also where zombproc is empty.
pub reap_init_children_false :
    (world : ℕ → Waited) (rounds i : ℕ) (empty : Bool)
    → reap_init_children world rounds i empty ≢ some true
unfolding reap_init_children
reap_init_children_false world zero i empty e = ground arith
reap_init_children_false world (suc n) i empty e =
    ground (arith, reap_init_children_false world n (i + 1) (world i).empty)
