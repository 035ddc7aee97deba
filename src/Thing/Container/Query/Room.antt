-- ===== src/Thing/Container/Query/Room.antt =====
-- A container never promises more room than its slots have.
use rubyserver.Base.{
  ℕ, suc, ◌+◌, ◌-◌, ◌*◌, ◌%◌, ◌^◌, ◌≤◌, ◌<◌, ◌≡◌, ap, ◌∙◌, Bool, true, false, List, [], ◌∷◌, none,
  some, ltb, if◌then◌else◌, length, arith, ◌↔◌,
}
use rubyserver.Thing.Container.{Facts}
use rubyserver.Thing.Container.Query.{
  no_error, container_not_enough_room, Flags, Container, is_partial, stack_room, free_slots,
  partial_room, max_of_stack, query_max_count,
}

-- What the slots hold of a stack's kind: the counts of the stacks with room for it, and a full stack for
-- every other slot that is taken.
unfoldable pub held : (Facts → Facts → Bool) → Facts → List Facts → ℕ
held same item [] = 0
held same item (slot ∷ slots) =
    (if is_partial same item slot then slot.item_count else item.max_count) + held same item slots

is_partial-lt :
    (same : Facts → Facts → Bool) (item slot : Facts)
    → is_partial same item slot ≡ true
    → slot.item_count < item.max_count
unfolding is_partial
is_partial-lt same item slot h = ground (arith, h)

suc_mul : (n m : ℕ) → suc n * m ≡ m + n * m
suc_mul n m = omega arith

stack_room-held :
    (same : Facts → Facts → Bool) (accepts : ℕ → ℕ → Bool) (item : Facts) (n : ℕ)
    (slots : List Facts)
    → stack_room same accepts item n slots + held same item slots ≤ length slots * item.max_count
unfolding stack_room held
stack_room-held same accepts item n [] = omega arith
stack_room-held same accepts item n (slot ∷ slots) = ground (
  arith,
  suc_mul (length slots) item.max_count,
  is_partial-lt same item slot,
  stack_room-held same accepts item n slots,
  stack_room-held same accepts item (suc n) slots,
)

mul_split : (a b m : ℕ) → a ≤ b → (b - a) * m + a * m ≡ b * m
mul_split a b m h = sum_mul (b - a) a m ∙ ap (λ (k : ℕ). k * m) (omega (arith, h))
  where
    sum_mul : (x y z : ℕ) → x * z + y * z ≡ (x + y) * z
    sum_mul x y z = omega arith

max_of_stack-held :
    (same : Facts → Facts → Bool) (accepts : ℕ → ℕ → Bool) (item : Facts) (c : Container)
    → length c.item_list ≤ c.capacity
    → max_of_stack same accepts item none c + held same item c.item_list
      ≤ c.capacity * item.max_count
unfolding max_of_stack partial_room free_slots
max_of_stack-held same accepts item c fits = omega (
  arith,
  mod_le (free_slots c * item.max_count + stack_room same accepts item 0 c.item_list),
  mul_split (length c.item_list) c.capacity item.max_count fits,
  stack_room-held same accepts item 0 c.item_list,
)
  where
    mod_le : (n : ℕ) → n % 2 ^ 32 ≤ n
    mod_le n = omega arith

query_max_count-stack :
    (same : Facts → Facts → Bool) (accepts : ℕ → ℕ → Bool) (item : Facts) (count : ℕ)
    (flags : Flags) (c : Container)
    → flags.no_limit ≡ false
    → item.stackable ≡ true
    → query_max_count same accepts none (some item) count flags c ≡ (
      if ltb (max_of_stack same accepts item none c) count
          then container_not_enough_room
          else no_error,
      max_of_stack same accepts item none c,
    )
unfolding query_max_count
query_max_count-stack same accepts item count flags c limited stacks =
    rw (query_max_count, limited, stacks)

-- For a stackable item that may lie anywhere in a container within its capacity, maxQueryCount with
-- what the slots already hold is at most a full stack for each slot; and the answer is no error only
-- if the count that was asked for is within it.
pub query_max_count-room :
    (same : Facts → Facts → Bool) (accepts : ℕ → ℕ → Bool) (item : Facts) (count : ℕ)
    (flags : Flags) (c : Container)
    → flags.no_limit ≡ false
    → item.stackable ≡ true
    → length c.item_list ≤ c.capacity
    → ((query_max_count same accepts none (some item) count flags c).1 + held same item c.item_list
        ≤ c.capacity * item.max_count)
      × (((query_max_count same accepts none (some item) count flags c).0 ≡ no_error)
          ↔ (count ≤ (query_max_count same accepts none (some item) count flags c).1))
query_max_count-room same accepts item count flags c limited stacks fits =
    rw (query_max_count-stack same accepts item count flags c limited stacks)
      (max_of_stack-held same accepts item c fits, (λ h. ground (arith, h), λ h. ground (arith, h)))
