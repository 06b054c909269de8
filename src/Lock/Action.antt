-- ===== src/Lock/Action.antt =====
-- The LCK_SLEEP_ bits of lck_sleep_action_t: UNLOCK 0x01, SHARED 0x02, EXCLUSIVE 0x04, SPIN 0x08,
-- PROMOTED_PRI 0x10, SPIN_ALWAYS 0x20. Any bit outside LCK_SLEEP_MASK, 0x3f, makes the word 64 or more.
use sock_fuzzer.Common.{ℕ, Bool, has_bit, leb}

abbrev pub unlocks : ℕ → Bool
unlocks a = has_bit 0 a

abbrev pub takes_shared : ℕ → Bool
takes_shared a = has_bit 1 a

abbrev pub takes_exclusive : ℕ → Bool
takes_exclusive a = has_bit 2 a

abbrev pub takes_spin : ℕ → Bool
takes_spin a = has_bit 3 a

abbrev pub promotes : ℕ → Bool
promotes a = has_bit 4 a

abbrev pub takes_spin_always : ℕ → Bool
takes_spin_always a = has_bit 5 a

abbrev pub is_invalid : ℕ → Bool
is_invalid a = leb 64 a
