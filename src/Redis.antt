-- ===== src/Redis.antt =====
-- The calls of go-redis that backend/internal/broker and backend/internal/middleware make. Redis
-- is not part of the program: it is the parameter `Redis`, and what its documentation says of the
-- calls is `IsListStore` and, for the rate limiter, `IsCounterStore`.
use digital_square.Base.{
  ℕ, zero, suc, ◌-◌, ◌≡◌, String, Bool, true, false, List, ◌∷◌, length, take, set,
}
use digital_square.Errors.{ok}
use digital_square.Action.{Action}

-- Indices may be negative: `negsuc n` is -(n + 1).
pub data ℤ : Type 0 where
  pos : ℕ → ℤ
  negsuc : ℕ → ℤ

-- n - 1, for a number that is not negative
abbrev pub before : ℕ → ℤ
before zero = negsuc 0
before (suc n) = pos n

pub record Redis : Type 1 where
  pub State : Type 0
  pub l_push : String → String → Action State (Unit {0})
  pub l_trim : String → ℤ → ℤ → Action State (Unit {0})
  pub l_range : String → ℤ → ℤ → Action State (List String)
  pub l_set : String → ℤ → String → Action State (Unit {0})
  pub incr : String → Action State ℕ
  pub expire : String → ℕ → Action State (Unit {0})
  pub ttl : String → Action State ℤ
  pub s_is_member : String → String → Action State Bool
  pub s_add : String → String → Action State (Unit {0})
  pub s_rem : String → String → Action State (Unit {0})

-- The range from the first item to a last index, which counts from the end if it is negative.
abbrev pub up_to {ℓ} : {A : Type ℓ} → ℤ → List A → List A
up_to (pos n) xs = take (suc n) xs
up_to (negsuc n) xs = take (length xs - n) xs

-- Lists: a call that returns no error has had its effect; a reading call changes no list.
pub record IsListStore (R : Redis) (list_at : R.State → String → List String) : Type 0 where
  pub pushed :
      (key v : String) (s : R.State)
      → (R.l_push key v s).0 ≡ ok tt
      → list_at (R.l_push key v s).1 key ≡ v ∷ list_at s key
  pub trimmed :
      (key : String) (last : ℤ) (s : R.State)
      → (R.l_trim key (pos 0) last s).0 ≡ ok tt
      → list_at (R.l_trim key (pos 0) last s).1 key ≡ up_to last (list_at s key)
  pub ranged :
      (key : String) (last : ℤ) (s : R.State) (found : List String)
      → (R.l_range key (pos 0) last s).0 ≡ ok found
      → found ≡ up_to last (list_at s key)
  pub range_reads :
      (key k : String) (first last : ℤ) (s : R.State)
      → list_at (R.l_range key first last s).1 k ≡ list_at s k
  pub stored :
      (key v : String) (i : ℕ) (s : R.State)
      → (R.l_set key (pos i) v s).0 ≡ ok tt
      → list_at (R.l_set key (pos i) v s).1 key ≡ set (list_at s key) i v

-- Counters and sets. A counter that is incremented within its window counts one more; no other call
-- of the rate limiter changes a counter.
pub record IsCounterStore (R : Redis) (count_at : R.State → String → ℕ)
    (members : R.State → String → String → Bool) : Type 0 where
  pub counted :
      (key : String) (s : R.State) (n : ℕ)
      → (R.incr key s).0 ≡ ok n
      → (n ≡ suc (count_at s key)) × (count_at (R.incr key s).1 key ≡ suc (count_at s key))
  pub expire_keeps :
      (key k : String) (window : ℕ) (s : R.State)
      → count_at (R.expire key window s).1 k ≡ count_at s k
  pub ttl_keeps : (key k : String) (s : R.State) → count_at (R.ttl key s).1 k ≡ count_at s k
  pub is_member :
      (key v : String) (s : R.State) (b : Bool)
      → (R.s_is_member key v s).0 ≡ ok b
      → b ≡ members s key v
  pub added :
      (key v : String) (s : R.State)
      → (R.s_add key v s).0 ≡ ok tt
      → members (R.s_add key v s).1 key v ≡ true
  pub removed :
      (key v : String) (s : R.State)
      → (R.s_rem key v s).0 ≡ ok tt
      → members (R.s_rem key v s).1 key v ≡ false
