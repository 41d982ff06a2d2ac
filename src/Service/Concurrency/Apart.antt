-- ===== src/Service/Concurrency/Apart.antt =====
-- internal/service/concurrency.go: which advisory locks are told apart.
use Prim.Native.Char.{Char, code}
use multi_agent_com.Base.{
  ℕ, ◌*◌, ◌/◌, ◌%◌, ◌<◌, ◌^◌, String, ◌+++◌, ◌≡◌, ◌≢◌, sym, ap, ◌∙◌, arith, cons-append, nil-append,
  bit_xor_cancel, bit_xor_cancel_left, bit_xor-bound, code-bound,
}
use multi_agent_com.Service.Concurrency.{
  project_seed, task_seed, hash_from, advisory_lock_id, lock_words,
}

hash_from-bound : (id : String) (h : ℕ) → h < 2 ^ 64 → hash_from h id < 2 ^ 64
unfolding hash_from
hash_from-bound String.[] h b = b
hash_from-bound (String.◌∷◌ c s) h b = hash_from-bound s _ (omega arith)

-- The factor is odd: multiplying by its inverse modulo 2 ^ 64 undoes the multiplication.
unmultiplied :
    (x : ℕ)
    → x < 2 ^ 64
    → ((x * 1_099_511_628_211) % 2 ^ 64 * 14_886_173_955_864_302_971) % 2 ^ 64 ≡ x
unmultiplied x b = omega arith

product_cancel :
    (x y : ℕ)
    → x < 2 ^ 64
    → y < 2 ^ 64
    → (x * 1_099_511_628_211) % 2 ^ 64 ≡ (y * 1_099_511_628_211) % 2 ^ 64
    → x ≡ y
product_cancel x y a b e =
    sym (unmultiplied x a)
    ∙ ap (λ z. (z * 14_886_173_955_864_302_971) % 2 ^ 64) e
    ∙ unmultiplied y b

-- Different hashes stay different, whatever text follows.
hash_from_cancel :
    (s : String) (h k : ℕ) → h < 2 ^ 64 → k < 2 ^ 64 → hash_from h s ≡ hash_from k s → h ≡ k
unfolding hash_from
hash_from_cancel String.[] h k a b e = e
hash_from_cancel (String.◌∷◌ c s) h k a b e = bit_xor_cancel h k (code c) (
    product_cancel _ _ (bit_xor-bound 64 h (code c) a (code-bound c))
      (bit_xor-bound 64 k (code c) b (code-bound c))
      (hash_from_cancel s _ _ (omega arith) (omega arith) e))

hash_from-append : (s t : String) (h : ℕ) → hash_from h (s +++ t) ≡ hash_from (hash_from h s) t
unfolding hash_from
hash_from-append String.[] t h = ap (hash_from h) (nil-append t)
hash_from-append (String.◌∷◌ c s) t h =
    ap (hash_from h) (cons-append c s t) ∙ hash_from-append s t _

-- Texts that differ in one character have different hashes.
hash_from_changed :
    (front back : String) (c d : Char) (h : ℕ)
    → h < 2 ^ 64
    → hash_from h (front +++ String.◌∷◌ c back) ≡ hash_from h (front +++ String.◌∷◌ d back)
    → code c ≡ code d
unfolding hash_from
hash_from_changed front back c d h b e =
    let k = hash_from h front in
    let bound = hash_from-bound front h b in
    let same =
      sym (hash_from-append front (String.◌∷◌ c back) h)
      ∙ e
      ∙ hash_from-append front (String.◌∷◌ d back) h in
    bit_xor_cancel_left k (code c) (code d) (
      product_cancel _ _ (bit_xor-bound 64 k (code c) bound (code-bound c))
        (bit_xor-bound 64 k (code d) bound (code-bound d))
        (hash_from_cancel back _ _ (omega arith) (omega arith) same))

lock_words_cancel : (x y : ℕ) → lock_words x ≡ lock_words y → x ≡ y
unfolding lock_words
lock_words_cancel x y e =
    let high : x / 2 ^ 32 ≡ y / 2 ^ 32 = ap (λ (p : ℕ × ℕ). p.0) e in
    let low : x % 2 ^ 32 ≡ y % 2 ^ 32 = ap (λ (p : ℕ × ℕ). p.1) e in omega arith

-- The two numbers that a lock statement takes fit 32 bits each. They are not the same for the
-- project lock and the task lock of one ID; nor, under any seed of 64 bits, for two IDs that differ
-- in one character.
pub lock_words-Apart :
    (front back : String) (c d : Char) (seed : ℕ)
    → seed < 2 ^ 64
    → code c ≢ code d
    → let id = front +++ String.◌∷◌ c back in
      let other = front +++ String.◌∷◌ d back in
      let words = lock_words (advisory_lock_id seed id) in
      (words.0 < 2 ^ 32)
      × (words.1 < 2 ^ 32)
      × (lock_words (advisory_lock_id project_seed id) ≢ lock_words (advisory_lock_id task_seed id))
      × (words ≢ lock_words (advisory_lock_id seed other))
unfolding lock_words advisory_lock_id
lock_words-Apart front back c d seed b apart =
    let id = front +++ String.◌∷◌ c back in
    let bound = hash_from-bound id seed b in
    (
      omega arith,
      omega arith,
      λ e. absurd (
          seeds (
            hash_from_cancel id project_seed task_seed (omega arith) (omega arith)
              (lock_words_cancel _ _ e))),
      λ e. apart (hash_from_changed front back c d seed b (lock_words_cancel _ _ e)),
    )
  where
    seeds : ¬ (project_seed ≡ task_seed)
    seeds e = omega arith
