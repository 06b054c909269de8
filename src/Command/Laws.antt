-- ===== src/Command/Laws.antt =====
-- On fuzz/handlers/command.cc: the depth of nested blocks of copying, the yields, and the connection ids.
use sock_fuzzer.Common.{
  ℕ, zero, suc, Bool, true, false, none, some, List, [], ◌∷◌, length, get_elem?, ◌≡◌, refl, ◌≢◌,
  ◌+◌, ◌<◌, ◌%◌, arith, if◌then◌else◌, not, ◌&&◌, length-append,
}
use native.Mathlib.Nat.{mod-lt, zero-lt-suc}
use sock_fuzzer.Host.Copying.Laws.{depth}
use sock_fuzzer.Command.{ioctl, Action}
use sock_fuzzer.Command.Handler.{
  Command, ioctl_index, ioctl_real, connect, Outside, connect_actions, chosen_cid, command_actions,
  is_set,
}
use sock_fuzzer.Command.Moves.{moves, yields, any_back}

-- The ioctl of an ioctl_index command comes back, after copying has been blocked.
abbrev pub is_stranded : Outside → Command → Bool
is_stranded o (ioctl_index fd index) = o.comes_back ioctl
is_stranded o command = false

-- The commands after which one more connection id is known.
abbrev pub adds_cid : Command → Bool
adds_cid (connect c) = true
adds_cid (ioctl_real request) = true
adds_cid command = false

-- What one command does up to the yield: copying is blocked once more exactly if it is stranded.
abbrev IsOrderly : Outside → Command → List Action → (d : ℕ) → Type 0
IsOrderly o command made d =
    (depth (moves made) d ≡ some (d + (if is_stranded o command then 1 else 0))) × (yields made ≡ 0)

-- A command that is set and of whose calls none comes back.
abbrev pub is_finished : Outside → Command → Bool
is_finished o command =
    is_set command && not (any_back o.comes_back (command_actions o command []).0)

abbrev pub stranded : (outside : ℕ → Outside) → List Command → ℕ
stranded outside [] = 0
stranded outside (command ∷ commands) =
    (if is_stranded (outside (length commands)) command then 1 else 0) + stranded outside commands

abbrev pub finished : (outside : ℕ → Outside) → List Command → ℕ
finished outside [] = 0
finished outside (command ∷ commands) =
    (if is_finished (outside (length commands)) command then 1 else 0) + finished outside commands

-- The command that is set decides whether an id is added: connectx adds one, and so does an ioctl with a
-- structure of its own, whose case goes on with the one of connectx. No other command adds one.
pub command_actions-cids :
    (o : Outside) (command : Command) (cids : List ℕ)
    → length (command_actions o command cids).1 ≡ length cids + (if adds_cid command then 1 else 0)
unfolding command_actions connect_actions
command_actions-cids o command cids = ground (arith, length-append cids (o.new_cid ∷ []))

in_range :
    (xs : List ℕ) (i : ℕ)
    → i < length xs
    → get_elem? xs i ≡ some (elim (get_elem? xs i) [ some x ↦ x | none ↦ 0 ])
in_range [] i h = absurd (omega arith)
in_range (x ∷ xs) zero h = refl
in_range (x ∷ xs) (suc i) h = in_range xs i (omega arith)

-- Where ids are known, disconnectx is given one of them.
pub chosen_cid-known :
    (cids : List ℕ) (cid : ℕ)
    → cids ≢ []
    → (i : ℕ) × (i < length cids) × (get_elem? cids i ≡ some (chosen_cid cids cid))
unfolding chosen_cid
chosen_cid-known [] cid known = absurd (known refl)
chosen_cid-known (first ∷ cids) cid known =
    let all : List ℕ = first ∷ cids in
    let small : cid % length all < length all = mod-lt cid (zero-lt-suc (length cids)) in
    (cid % length all, small, in_range all (cid % length all) small)
