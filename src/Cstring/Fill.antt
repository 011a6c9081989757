-- ===== src/Cstring/Fill.antt =====
-- memset fills the same bytes whether it writes words or bytes.
use osp.Prelude.{
  ℕ, zero, suc, ◌+◌, ◌*◌, ◌/◌, ◌%◌, ◌^◌, ◌<◌, ◌≡◌, ◌&&◌, arith, ltb, leb, ◌==◌, if◌then◌else◌,
  update, Bool-cases, inl, inr, ◌∙◌, sym, ap,
}
use osp.Cstring.{byte, stosb, store_word, stosl, memset}

-- Memory in which the `n` bytes from `dst` on are `v`.
abbrev pub filled : ℕ → ℕ → ℕ → (ℕ → ℕ) → ℕ → ℕ
filled dst v n mem a = if leb dst a && ltb a (dst + n) then v else mem a

filled_first :
    (d v n : ℕ) (mem : ℕ → ℕ) (a : ℕ)
    → filled (d + 1) v n (update mem d v) a ≡ filled d v (suc n) mem a
filled_first d v n mem a = ground arith

filled_none : (d v : ℕ) (mem : ℕ → ℕ) (a : ℕ) → filled d v 0 mem a ≡ mem a
filled_none d v mem a = ground arith

stosb-filled :
    (n d c : ℕ) (mem : ℕ → ℕ) (a : ℕ)
    → d + n < 2 ^ 32
    → stosb d c n mem a ≡ filled d (c % 2 ^ 8) n mem a
unfolding stosb
stosb-filled zero d c mem a h = sym (filled_none d (c % 2 ^ 8) mem a)
stosb-filled (suc n) d c mem a h =
    ap (λ k. stosb k c n (update mem d (c % 2 ^ 8)) a) (omega arith)
    ∙ stosb-filled n (d + 1) c (update mem d (c % 2 ^ 8)) a (omega arith)
    ∙ filled_first d (c % 2 ^ 8) n mem a

-- Four bytes that are all `v`.
abbrev pub store_four : ℕ → ℕ → (ℕ → ℕ) → ℕ → ℕ
store_four d v mem =
    update (update (update (update mem d v) (d + 1) v) (d + 1 + 1) v) (d + 1 + 1 + 1) v

filled_four :
    (d v n : ℕ) (mem : ℕ → ℕ) (a : ℕ)
    → filled (d + 4) v n (store_four d v mem) a ≡ filled d v (n + 4) mem a
filled_four d v n mem a = ground arith

abbrev pub word_of : ℕ → ℕ
word_of b = b * 2 ^ 24 + b * 2 ^ 16 + b * 2 ^ 8 + b

byte-word_of :
    (b : ℕ)
    → b < 2 ^ 8
    → (byte (word_of b) 0 ≡ b)
      × (byte (word_of b) 1 ≡ b)
      × (byte (word_of b) 2 ≡ b)
      × (byte (word_of b) 3 ≡ b)
byte-word_of b small = (omega arith, omega arith, omega arith, omega arith)

store_word-four :
    (d b : ℕ) (mem : ℕ → ℕ)
    → b < 2 ^ 8
    → d + 4 < 2 ^ 32
    → store_word mem d (word_of b) ≡ store_four d b mem
store_word-four d b mem small h =
    let (b0, b1, b2, b3) = byte-word_of b small in
    let p1 : (d + 1) % 2 ^ 32 ≡ d + 1 = omega arith in
    let p2 : (d + 2) % 2 ^ 32 ≡ d + 1 + 1 = omega arith in
    let p3 : (d + 3) % 2 ^ 32 ≡ d + 1 + 1 + 1 = omega arith in rw (b0, b1, b2, b3, p1, p2, p3)

stosl-filled :
    (n d b : ℕ) (mem : ℕ → ℕ) (a : ℕ)
    → b < 2 ^ 8
    → d + n * 4 < 2 ^ 32
    → stosl d (word_of b) n mem a ≡ filled d b (n * 4) mem a
unfolding stosl
stosl-filled zero d b mem a small h = sym (filled_none d b mem a)
stosl-filled (suc n) d b mem a small h =
    ap (λ k. stosl k (word_of b) n (store_word mem d (word_of b)) a) (omega arith)
    ∙ ap (λ m. stosl (d + 4) (word_of b) n m a) (store_word-four d b mem small (omega arith))
    ∙ stosl-filled n (d + 4) b (store_four d b mem) a small (omega arith)
    ∙ filled_four d b (n * 4) mem a
    ∙ ap (λ k. filled d b k mem a) (omega arith)

-- memset sets the `n` bytes from `dst` on to the low byte of `c` and changes no other byte, whether
-- it writes words or single bytes, when the bytes end below the last address.
pub memset-filled :
    (dst c n : ℕ) (mem : ℕ → ℕ) (a : ℕ)
    → dst + n < 2 ^ 32
    → memset dst c n mem a ≡ filled dst (c % 2 ^ 8) n mem a
unfolding memset
memset-filled dst c n mem a h = elim (Bool-cases (dst % 4 == 0 && n % 4 == 0)) [
  | inl y ↦
      let whole : n / 4 * 4 ≡ n = ground arith in
      rw y (
        stosl-filled (n / 4) dst (c % 2 ^ 8) mem a (omega arith) (omega arith)
        ∙ ap (λ k. filled dst (c % 2 ^ 8) k mem a) whole)
  | inr n0 ↦ rw n0 (stosb-filled n dst c mem a h)
]
