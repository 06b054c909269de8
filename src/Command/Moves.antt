-- ===== src/Command/Moves.antt =====
-- The blocks of copying, the yields and the calls among the actions of fuzz/handlers/command.cc.
use sock_fuzzer.Common.{
  ℕ, zero, suc, Bool, true, false, some, List, [], ◌∷◌, ◌++◌, ◌≡◌, refl, ap, ◌+◌, arith,
  if◌then◌else◌, ◌||◌,
}
use sock_fuzzer.Host.Copying.Laws.{Move, block, unblock, depth}
use sock_fuzzer.Command.{Argument, Function, Action, invoke, block_copyin, unblock_copyin, yield}
use sock_fuzzer.Command.Traps.{
  VmTrap, PortTrap, MsgTrap, OtherTrap, vm_actions, port_actions, msg_actions, other_actions,
  handle_mach_msg2,
}
use sock_fuzzer.Command.Handler.{until_return}

-- The blocks and unblocks among some actions.
abbrev pub moves : List Action → List Move
moves [] = []
moves (block_copyin ∷ actions) = block ∷ moves actions
moves (unblock_copyin ∷ actions) = unblock ∷ moves actions
moves (invoke function arguments ∷ actions) = moves actions
moves (yield ∷ actions) = moves actions

abbrev pub yields : List Action → ℕ
yields [] = 0
yields (yield ∷ actions) = suc (yields actions)
yields (block_copyin ∷ actions) = yields actions
yields (unblock_copyin ∷ actions) = yields actions
yields (invoke function arguments ∷ actions) = yields actions

pub moves-append : (xs ys : List Action) → moves (xs ++ ys) ≡ moves xs ++ moves ys
moves-append [] ys = refl
moves-append (block_copyin ∷ xs) ys = ap (◌∷◌ block) (moves-append xs ys)
moves-append (unblock_copyin ∷ xs) ys = ap (◌∷◌ unblock) (moves-append xs ys)
moves-append (invoke f a ∷ xs) ys = moves-append xs ys
moves-append (yield ∷ xs) ys = moves-append xs ys

pub yields-append : (xs ys : List Action) → yields (xs ++ ys) ≡ yields xs + yields ys
yields-append [] ys = omega arith
yields-append (block_copyin ∷ xs) ys = yields-append xs ys
yields-append (unblock_copyin ∷ xs) ys = yields-append xs ys
yields-append (invoke f a ∷ xs) ys = yields-append xs ys
yields-append (yield ∷ xs) ys = omega (arith, yields-append xs ys)

pub depth-append :
    (xs ys : List Move) (d e : ℕ) → depth xs d ≡ some e → depth (xs ++ ys) d ≡ depth ys e
depth-append [] ys d e h = ground arith
depth-append (block ∷ xs) ys d e h = depth-append xs ys (suc d) e h
depth-append (unblock ∷ xs) ys zero e h = cc
depth-append (unblock ∷ xs) ys (suc d) e h = depth-append xs ys d e h

pub vm-plain : (trap : VmTrap) → (moves (vm_actions trap) ≡ []) × (yields (vm_actions trap) ≡ 0)
unfolding vm_actions
vm-plain trap = ground arith

pub msg-plain : (trap : MsgTrap) → (moves (msg_actions trap) ≡ []) × (yields (msg_actions trap) ≡ 0)
unfolding msg_actions handle_mach_msg2
msg-plain trap = ground arith

pub other-plain :
    (trap : OtherTrap) → (moves (other_actions trap) ≡ []) × (yields (other_actions trap) ≡ 0)
unfolding other_actions
other-plain trap = ground arith

pub port-plain :
    (task : ℕ) (options_bytes : ℕ → ℕ → Argument → List ℕ) (trap : PortTrap)
    → (moves (port_actions task options_bytes trap) ≡ [])
      × (yields (port_actions task options_bytes trap) ≡ 0)
unfolding port_actions
port-plain task options_bytes trap = ground arith

pub after-moves : (b : Bool) → moves (if b then yield ∷ [] else []) ≡ []
after-moves true = refl
after-moves false = refl

pub after-yields : (b : Bool) → yields (if b then yield ∷ [] else []) ≡ (if b then 1 else 0)
after-yields true = refl
after-yields false = refl

-- Whether one of the calls comes back through SyscallReturn.
abbrev pub any_back : (comes_back : Function → Bool) → List Action → Bool
any_back comes_back [] = false
any_back comes_back (invoke function arguments ∷ actions) =
    comes_back function || any_back comes_back actions
any_back comes_back (block_copyin ∷ actions) = any_back comes_back actions
any_back comes_back (unblock_copyin ∷ actions) = any_back comes_back actions
any_back comes_back (yield ∷ actions) = any_back comes_back actions

pub until_return-any_back :
    (back : Function → Bool) (actions : List Action)
    → (until_return back actions).1 ≡ any_back back actions
unfolding until_return
until_return-any_back back [] = refl
until_return-any_back back (invoke f a ∷ xs) = ground (arith, until_return-any_back back xs)
until_return-any_back back (block_copyin ∷ xs) = until_return-any_back back xs
until_return-any_back back (unblock_copyin ∷ xs) = until_return-any_back back xs
until_return-any_back back (yield ∷ xs) = until_return-any_back back xs

-- Actions that neither block nor unblock nor yield do not do so up to a call that comes back.
pub until_return-plain :
    (back : Function → Bool) (actions : List Action)
    → (moves actions ≡ []) × (yields actions ≡ 0)
    → let made = (until_return back actions).0 in (moves made ≡ []) × (yields made ≡ 0)
unfolding until_return
until_return-plain back [] plain = plain
until_return-plain back (invoke f a ∷ xs) plain =
    let ih = until_return-plain back xs plain in ground (arith, ih.0, ih.1)
until_return-plain back (block_copyin ∷ xs) plain = ground arith
until_return-plain back (unblock_copyin ∷ xs) plain = ground arith
until_return-plain back (yield ∷ xs) plain = ground arith
