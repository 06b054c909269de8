-- ===== src/Walk/Laws.antt =====
-- On GetTask, GetThread and print_thread of fuzz/xnu/osfmk/api/scheduler_state.c.
use sock_fuzzer.Common.{
  ℕ, zero, suc, ◌≤◌, ◌≡◌, ◌≢◌, refl, ap, sym, ◌∙◌, Bool, true, false, Option, none, some, List, [],
  ◌∷◌, ◌++◌, length, if◌then◌else◌, All, arith, append_assoc, append-nil,
}
use sock_fuzzer.Thread.{Thread}
use sock_fuzzer.Walk.{
  queue_first, queue_next, get_task, get_thread, Piece, comma, print_flags, thread_flags,
  print_thread,
}

-- Repeated calls, each with the result of the one before, for at most `n` calls.
abbrev pub walk : (next : Option ℕ → Option ℕ) → (n : ℕ) → Option ℕ → List ℕ
walk next zero at = []
walk next (suc n) at = elim (next at) [ none ↦ [] | some t ↦ t ∷ walk next n (some t) ]

-- No element twice.
abbrev pub NoDup : List ℕ → Type 0
NoDup [] = Unit
NoDup (x ∷ xs) = All (λ y. y ≢ x) xs × NoDup xs

queue_next-skip : (t : ℕ) (xs : List ℕ) (x : ℕ) → t ≢ x → queue_next t (x ∷ xs) ≡ queue_next t xs
queue_next-skip t xs x ne = ground arith

walk-end :
    (next : Option ℕ → Option ℕ) (n : ℕ) (at : Option ℕ) → next at ≡ none → walk next n at ≡ []
walk-end next zero at e = refl
walk-end next (suc n) at e =
    ap (λ (o : Option ℕ). elim o [ none ↦ [] | some t ↦ t ∷ walk next n (some t) ]) e

walk-step :
    (next : Option ℕ → Option ℕ) (n : ℕ) (at : Option ℕ) (t : ℕ)
    → next at ≡ some t
    → walk next (suc n) at ≡ t ∷ walk next n (some t)
walk-step next n at t e =
    ap (λ (o : Option ℕ). elim o [ none ↦ [] | some t ↦ t ∷ walk next n (some t) ]) e

-- Behind `done`, an element that is not in it is followed by what is behind it.
queue_next-behind :
    (done rest : List ℕ) (t : ℕ)
    → All (λ y. y ≢ t) done
    → queue_next t (done ++ t ∷ rest) ≡ queue_first rest
queue_next-behind [] rest t h = ground arith
queue_next-behind (y ∷ done) rest t h =
    queue_next-skip t (done ++ t ∷ rest) y (λ e. h.0 (sym e)) ∙ queue_next-behind done rest t h.1

NoDup-behind : (done rest : List ℕ) (t : ℕ) → NoDup (done ++ t ∷ rest) → All (λ y. y ≢ t) done
NoDup-behind [] rest t h = tt
NoDup-behind (y ∷ done) rest t h = (apart done h.0, NoDup-behind done rest t h.1)
  where
    apart : (xs : List ℕ) → All (λ z. z ≢ y) (xs ++ t ∷ rest) → y ≢ t
    apart [] k = λ e. k.0 (sym e)
    apart (x ∷ xs) k = apart xs k.1

module _ (queue : List ℕ) (next : Option ℕ → Option ℕ) (first : next none ≡ queue_first queue)
    (follow : (t : ℕ) → next (some t) ≡ queue_next t queue) where
  walk-from :
      (rest done : List ℕ) (n t : ℕ)
      → queue ≡ done ++ t ∷ rest
      → NoDup queue
      → length rest ≤ n
      → walk next n (some t) ≡ rest
  walk-from [] done n t e d le = walk-end next n (some t) (followed e d)
    where
      followed : queue ≡ done ++ t ∷ [] → NoDup queue → next (some t) ≡ none
      followed e' d' =
          follow t ∙ rw e' (queue_next-behind done [] t (NoDup-behind done [] t (rw e' at d')))
  walk-from (u ∷ rest) done zero t e d le = absurd (omega arith)
  walk-from (u ∷ rest) done (suc n) t e d le =
      let after : next (some t) ≡ some u =
        follow t
        ∙ rw e (queue_next-behind done (u ∷ rest) t (NoDup-behind done (u ∷ rest) t (rw e at d))) in
      walk-step next n (some t) u after
      ∙ ap (◌∷◌ u) (
          walk-from rest (done ++ t ∷ []) n u (e ∙ sym (append_assoc done (t ∷ []) (u ∷ rest))) d
            (omega arith))

  walk-all : (n : ℕ) → NoDup queue → length queue ≤ n → walk next n none ≡ queue
  walk-all n d le = go n queue refl le
    where
      go : (m : ℕ) (q : List ℕ) → queue ≡ q → length queue ≤ m → walk next m none ≡ queue
      go m [] e le' = walk-end next m none (first ∙ ap queue_first e) ∙ sym e
      go zero (x ∷ xs) e le' = absurd (omega (arith, ap length e))
      go (suc m) (x ∷ xs) e le' =
          walk-step next m none x (first ∙ ap queue_first e)
          ∙ ap (◌∷◌ x) (walk-from xs [] m x e d (omega (arith, ap length e)))
          ∙ sym e

-- A host that calls GetTask, or GetThread, first with NULL and then with each result visits every
-- element of a queue without repetitions, in its order, each once, and ends.
pub get_task-walk :
    (queue : List ℕ) (n : ℕ)
    → NoDup queue
    → length queue ≤ n
    → (walk (get_task queue) n none ≡ queue) × (walk (get_thread queue) n none ≡ queue)
unfolding get_task get_thread
get_task-walk queue n d le = (
  walk-all queue (get_task queue) refl (λ t. refl) n d le,
  walk-all queue (get_thread queue) refl (λ t. refl) n d le,
)

-- The names of the flags that are set.
abbrev pub set_names : List (Bool × Piece) → List Piece
set_names [] = []
set_names ((flag, name) ∷ rest) = if flag then name ∷ set_names rest else set_names rest

abbrev pub commas : List Piece → List Piece
commas [] = []
commas (x ∷ xs) = comma ∷ x ∷ commas xs

abbrev pub joined : List Piece → List Piece
joined [] = []
joined (x ∷ xs) = x ∷ commas xs

print_flags-commas :
    (fs : List (Bool × Piece)) (out : List Piece)
    → (print_flags fs (out, true)).0 ≡ out ++ commas (set_names fs)
print_flags-commas [] out = sym (append-nil out)
print_flags-commas ((true, name) ∷ fs) out =
    print_flags-commas fs (out ++ comma ∷ name ∷ []) ∙ append_assoc out (comma ∷ name ∷ []) _
print_flags-commas ((false, name) ∷ fs) out = print_flags-commas fs out

print_flags-joined :
    (fs : List (Bool × Piece)) → (print_flags fs ([], false)).0 ≡ joined (set_names fs)
print_flags-joined [] = refl
print_flags-joined ((true, name) ∷ fs) = print_flags-commas fs (name ∷ [])
print_flags-joined ((false, name) ∷ fs) = print_flags-joined fs

-- A verbose run prints the flags that a thread has, each once, in a fixed order, with a comma between
-- two of them and none before the first or behind the last.
pub print_thread-joined :
    (t : Thread) → print_thread true (some t) ≡ joined (set_names (thread_flags t))
unfolding print_thread
print_thread-joined t = print_flags-joined (thread_flags t)
