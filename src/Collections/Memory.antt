-- ===== src/Collections/Memory.antt =====
-- The memory that src/collections.rs works on: bytes by address, the boxed slices that Rust has
-- leaked to C, and the calls of deleters that C code supplied. An address of 0 is NULL. What is
-- undefined in Rust is a fault: a slice from NULL, and a box that is freed but not allocated.
-- Whether a foreign address may be read is up to the caller, and not modelled.
use zenoh_c.Common.{
  ℕ, zero, suc, ◌+◌, ◌≡◌, Bool, false, ◌&&◌, Option, none, some, List, [], ◌∷◌, ◌++◌, ◌==◌,
  if◌then◌else◌, length,
}

abbrev pub Ptr : Type 0
Ptr = ℕ

abbrev pub null : Ptr
null = 0

abbrev pub Bytes : Type 0
Bytes = List ℕ

-- An address and a length.
abbrev pub Block : Type 0
Block = Ptr × ℕ

-- A call of a C deleter: the function, the data and the context.
pub record Call : Type 0 where
  pub deleter : ℕ
  pub target : Ptr
  pub context : ℕ

pub record Memory : Type 0 where
  pub byte : Ptr → ℕ
  -- no address from here on is in use
  pub next : Ptr
  pub boxes : List Block
  pub calls : List Call

-- `none` is a fault.
abbrev pub M : Type 0 → Type 0
M A = Memory → Option (A × Memory)

abbrev pub pure : {A : Type 0} → A → M A
pure a m = some (a, m)

abbrev pub fault : {A : Type 0} → M A
fault m = none

-- A fault ends the whole; otherwise what comes next runs in the memory that is left.
infixl 5 ◌>>◌ ◌>>=◌
abbrev pub ◌>>=◌ : {A B : Type 0} → M A → (A → M B) → M B
◌>>=◌ k f m = elim (k m) [ none ↦ none | some (a, m') ↦ f a m' ]

abbrev pub Effect : Type 0
Effect = M (Unit {0})

abbrev pub ◌>>◌ : {A : Type 0} → Effect → M A → M A
effect >> next = effect >>= λ done. next

pub bind-some :
    {A B : Type 0} (k : M A) (f : A → M B) {m m' : Memory} {a : A}
    → k m ≡ some (a, m')
    → (k >>= f) m ≡ f a m'
bind-some k f e = rw (e, ◌>>=◌)

-- The `n` bytes from address `p` on.
abbrev pub read : (Ptr → ℕ) → Ptr → ℕ → Bytes
read f p zero = []
read f p (suc n) = f p ∷ read f (p + 1) n

-- The contents `bs` put at address `p`.
abbrev pub write : (Ptr → ℕ) → Ptr → Bytes → Ptr → ℕ
write f p [] q = f q
write f p (b ∷ bs) q = if q == p then b else write f (p + 1) bs q

-- `from_raw_parts(data, len)`, its bytes read
unfoldable pub from_raw_parts : Ptr → ℕ → M Bytes
from_raw_parts p n m = if p == null then none else some (read m.byte p n, m)

pub from_raw_parts-read :
    (p n : ℕ) (m : Memory) → (p == null) ≡ false → from_raw_parts p n m ≡ some (read m.byte p n, m)
unfolding from_raw_parts
from_raw_parts-read p n m e = rw (e, from_raw_parts)

-- Where `Box<[u8]>` of no bytes points: its alignment.
abbrev pub dangling : Ptr
dangling = 1

-- `Box::leak` of a boxed slice with contents `bs`: a fresh block, but none for no bytes.
unfoldable pub box_leak : Bytes → M Ptr
box_leak [] m = some (dangling, m)
box_leak (b ∷ bs) m = some (
  m.next,
  record m {
    byte = write m.byte m.next (b ∷ bs);
    next = m.next + length (b ∷ bs);
    boxes = (m.next, length (b ∷ bs)) ∷ m.boxes;
  },
)

abbrev pub same_block : Block → Block → Bool
same_block (p, n) (q, k) = p == q && n == k

abbrev keep : Block → Option (List Block) → Option (List Block)
keep x none = none
keep x (some ys) = some (x ∷ ys)

-- One block less; `none` where it is not there.
unfoldable pub remove : Block → List Block → Option (List Block)
remove b [] = none
remove b (x ∷ xs) = if same_block b x then some xs else keep x (remove b xs)

-- `Box::from_raw` and its drop.
unfoldable pub box_free : Ptr → ℕ → M (Unit {0})
unfolding remove
box_free p zero m = some (tt, m)
box_free p (suc n) m = elim (remove (p, suc n) m.boxes) [
  | none ↦ none
  | some xs ↦ some (tt, record m { boxes = xs })
]

pub box_free-some :
    (p n : ℕ) (m : Memory) {ys : List Block}
    → remove (p, suc n) m.boxes ≡ some ys
    → box_free p (suc n) m ≡ some (tt, record m { boxes = ys })
unfolding box_free
box_free-some p n m e = rw (e, box_free)

-- A call of a C deleter.
unfoldable pub call_deleter : ℕ → Ptr → ℕ → M (Unit {0})
call_deleter f p c m =
    some (tt, record m { calls = m.calls ++ record { deleter = f; target = p; context = c } ∷ [] })
