-- ===== src/Store/Mock.antt =====
-- A server that meets the laws: a function from keys to a value and the time it has left.
use ha_cluster_state_sync.Prelude.{
  ℕ, ◌-◌, ◌<◌, ◌≤◌, ◌≡◌, ◌≢◌, Option, none, some, Text, text_eq, if◌then◌else◌, ltb, arith, ap, inl,
  inr, Bool-cases, text_eq_iff,
}
use ha_cluster_state_sync.Store.Defs.{Redis, RedisLaws}

pub record Cell : Type 0 where
  pub value : Text
  pub left : Option ℕ

pub record Mock : Type 0 where
  pub cells : Text → Option Cell
  pub clock : ℕ × ℕ

abbrev pub empty_mock : Mock
empty_mock = record { cells = λ _. none; clock = (0, 0) }

abbrev value_of : Option Cell → Option Text
value_of none = none
value_of (some c) = some c.value

abbrev left_of : Option Cell → Option ℕ
left_of none = none
left_of (some c) = c.left

abbrev write : Text → Option Cell → Mock → Mock
write k c s = record s { cells = λ j. if text_eq k j then c else s.cells j }

abbrev touch : ℕ → Option Cell → Option Cell
touch t none = none
touch t (some c) = some (record c { left = some t })

abbrev aged_left : ℕ → Cell → Option ℕ → Option Cell
aged_left n c none = some c
aged_left n c (some m) = if ltb n m then some (record c { left = some (m - n) }) else none

abbrev aged : ℕ → Option Cell → Option Cell
aged n none = none
aged n (some c) = aged_left n c c.left

abbrev pub mock : Redis Mock
mock = record {
  get = λ k s. value_of (s.cells k);
  set = λ k v. write k (some (record { value = v; left = none }));
  set_px = λ k v t. write k (some (record { value = v; left = some t }));
  pexpire =
      λ k t s. record s { cells = λ j. if text_eq k j then touch t (s.cells j) else s.cells j };
  del = λ k. write k none;
  pttl = λ k s. left_of (s.cells k);
  time = λ s. s.clock;
  elapse = λ n s. record s { cells = λ j. aged n (s.cells j) };
}

touch_value : (t : ℕ) (c : Option Cell) → value_of (touch t c) ≡ value_of c
touch_value t c = ground arith

touch_left : (t : ℕ) (c : Option Cell) → value_of c ≢ none → left_of (touch t c) ≡ some t
touch_left t c h = ground arith

aged_value :
    (n m : ℕ) (c : Option Cell) → left_of c ≡ some m → n < m → value_of (aged n c) ≡ value_of c
aged_value n m c e h = ground arith

aged_left_lem :
    (n m : ℕ) (c : Option Cell) → left_of c ≡ some m → n < m → left_of (aged n c) ≡ some (m - n)
aged_left_lem n m c e h = ground arith

aged_expired : (n m : ℕ) (c : Option Cell) → left_of c ≡ some m → m ≤ n → value_of (aged n c) ≡ none
aged_expired n m c e h = ground arith

pexpire_left :
    (k j : Text) (t : ℕ) (s : Mock)
    → mock.get k s ≢ none
    → mock.pttl j (mock.pexpire k t s) ≡ (if text_eq k j then some t else mock.pttl j s)
pexpire_left k j t s h = elim (Bool-cases (text_eq k j)) [
  | inl same ↦
      let e : s.cells k ≡ s.cells j = ap s.cells ((text_eq_iff k j).0 same) in
      rw same (touch_left t (s.cells j) (rw e at h))
  | inr other ↦ rw other
]

pub mock-laws : RedisLaws mock
mock-laws = record {
  get-set = λ k j v s. ground arith;
  get-set_px = λ k j v t s h. ground arith;
  pttl-set_px = λ k j v t s h. ground arith;
  get-pexpire = λ k j t s h. ground arith;
  pttl-pexpire = λ k j t s h. pexpire_left k j t s;
  get-del = λ k j s. ground arith;
  get-elapse = λ k n m s. aged_value n m (s.cells k);
  pttl-elapse = λ k n m s. aged_left_lem n m (s.cells k);
  get-elapse_expired = λ k n m s. aged_expired n m (s.cells k);
}
