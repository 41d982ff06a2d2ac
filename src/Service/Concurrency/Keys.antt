-- ===== src/Service/Concurrency/Keys.antt =====
-- internal/service/concurrency.go: the text form of idempotency keys and its parser, and what
-- happens to a key that is checked twice.
use Prim.Native.Char.{code}
use multi_agent_com.Base.{
  split_n-cut, split_n-whole, has_text, cons-append, nil-append, subst, String, ◌+++◌, ◌≡◌, refl,
  sym, ap, ◌∙◌, ◌↔◌, inl, inr, true, false, [], ◌∷◌, Option, none, some, is_empty, has_code, cut,
  cut_join, cut_parts, split_n, Bool-cases, Option-cases,
}
use multi_agent_com.Service.State.{ok, ok-injective}
use multi_agent_com.Service.Concurrency.{
  IdempotencyKey, key_text, colon, key_of, parse_key, KeyTable, check_idempotency,
  record_idempotency, check_idempotency_key, recorded, row_found, after_check,
}

-- A key whose three parts are there, and whose colons are all in the last one.
pub record IsProper (k : IdempotencyKey) : Type 0 where
  pub has_project : is_empty k.project_id ≡ false
  pub has_operation : is_empty k.operation ≡ false
  pub has_key : is_empty k.key ≡ false
  pub project_uncut : has_code (code colon) k.project_id ≡ false
  pub operation_uncut : has_code (code colon) k.operation ≡ false

at_colon : (a b : String) → a +++ (":" +++ b) ≡ a +++ String.◌∷◌ colon b
at_colon a b = ap (λ x. a +++ x) (cons-append colon "" b ∙ ap (String.◌∷◌ colon) (nil-append b))

cut_at :
    (a b : String)
    → has_code (code colon) a ≡ false
    → cut (code colon) (a +++ (":" +++ b)) ≡ some (a, b)
cut_at a b h = rw (at_colon a b) (cut_join colon a b h)

three_parts :
    (s : String) (q r : String × String)
    → cut (code colon) s ≡ some q
    → cut (code colon) q.1 ≡ some r
    → split_n 3 (code colon) s ≡ q.0 ∷ (r.0 ∷ (r.1 ∷ []))
three_parts s q r first second =
    split_n-cut 1 (code colon) s q first
    ∙ ap (λ x. q.0 ∷ x) (split_n-cut 0 (code colon) q.1 r second)

pub parse_key-key_text : (k : IdempotencyKey) → IsProper k → parse_key (key_text k) ≡ ok k
unfolding parse_key key_text
parse_key-key_text k p =
    let parts =
      three_parts (key_text k) _ _ (cut_at k.project_id _ p.project_uncut)
        (cut_at k.operation k.key p.operation_uncut) in
    ap key_of parts ∙ rw (p.has_project, p.has_operation, p.has_key) refl

abbrev three : String → String → String → IdempotencyKey
three p o k = record { project_id = p; operation = o; key = k }

key_of_parts :
    (p o k : String) (key : IdempotencyKey)
    → key_of (p ∷ (o ∷ (k ∷ []))) ≡ ok key
    → (three p o k ≡ key) × ((is_empty p ≡ false) × ((is_empty o ≡ false) × (is_empty k ≡ false)))
key_of_parts p o k key e = elim (Bool-cases (is_empty p)) [
  | inl a ↦ absurd (cc (rw a at e))
  | inr a ↦ elim (Bool-cases (is_empty o)) [
    | inl b ↦ absurd (cc (rw (a, b) at e))
    | inr b ↦ elim (Bool-cases (is_empty k)) [
      | inl c ↦ absurd (cc (rw (a, b, c) at e))
      | inr c ↦ (ok-injective (rw (a, b, c) at e), (a, (b, c)))
    ]
  ]
]

pub key_text-parse_key :
    (header : String) (k : IdempotencyKey)
    → parse_key header ≡ ok k
    → (key_text k ≡ header) × IsProper k
unfolding parse_key key_text
key_text-parse_key header k e = elim (Option-cases (cut (code colon) header)) [
  | inl whole ↦ absurd (cc (ap key_of (split_n-whole 1 (code colon) header whole), e))
  | inr (q, first) ↦ elim (Option-cases (cut (code colon) q.1)) [
    | inl two ↦
        let parts =
          split_n-cut 1 (code colon) header q first
          ∙ ap (λ x. q.0 ∷ x) (split_n-whole 0 (code colon) q.1 two) in
        absurd (cc (ap key_of parts, e))
    | inr (r, second) ↦
        let front = cut_parts colon header q first in
        let back = cut_parts colon q.1 r second in
        let made =
          key_of_parts q.0 r.0 r.1 k (sym (ap key_of (three_parts header q r first second)) ∙ e) in
        subst (λ key. (key_text key ≡ header) × IsProper key) made.0
          (
            rw (at_colon r.0 r.1, at_colon q.0, sym back.0, sym front.0) refl,
            record {
              has_project = made.1.0;
              has_operation = made.1.1.0;
              has_key = made.1.1.1;
              project_uncut = front.1;
              operation_uncut = back.1;
            },
          )
  ]
]

-- `ParseIdempotencyKey` accepts exactly the texts of the keys whose parts are not empty and whose
-- project and operation have no colon, and it gives that key back.
pub parse_key_iff :
    (header : String) (k : IdempotencyKey)
    → (parse_key header ≡ ok k) ↔ ((key_text k ≡ header) × IsProper k)
parse_key_iff header k = (
  key_text-parse_key header k,
  λ h. subst (λ t. parse_key t ≡ ok k) h.0 (parse_key-key_text k h.1),
)

-- What the table is relied on for: a key that was stored is found, and creating the table where it
-- exists forgets no key.
pub record IsTable {D : Type 0} (table : KeyTable D) : Type 0 where
  pub store_found :
      (d : D) (k : String)
      → (table.store_key d k).1 ≡ none
      → table.find_key (table.store_key d k).0 k ≡ none
  pub create_keeps :
      (d : D) (k : String) → table.find_key d k ≡ none → table.find_key (table.create d).0 k ≡ none

module _ {D : Type 0} (table : KeyTable D) (laws : IsTable table) where
  recorded_ok : (x : D × Option String) (d' : D) → recorded x ≡ (d', ok false) → x ≡ (d', none)
  recorded_ok (d, none) d' e = cc e
  recorded_ok (d, some m) d' e = absurd (cc e)

  -- What the check finds, where the table can be opened.
  checked :
      (k : String) (d : D)
      → (table.create d).1 ≡ none
      → check_idempotency (some table) k d
        ≡ ((table.create d).0, row_found (table.find_key (table.create d).0 k))
  unfolding check_idempotency
  checked k d opened = rw opened refl

  -- A key that was let through was stored.
  let_through :
      (k : IdempotencyKey) (d d' : D)
      → check_idempotency_key (some table) k d ≡ (d', ok false)
      → (d0 : D) × (table.store_key d0 (key_text k) ≡ (d', none))
  unfolding check_idempotency_key check_idempotency after_check record_idempotency
  let_through k d d' e = elim (Option-cases (table.create d).1) [
    | inr (m, failed) ↦ absurd (cc (rw (check_idempotency_key, check_idempotency, failed) at e))
    | inl opened ↦
        let d0 = (table.create d).0 in
        let was = checked (key_text k) d opened in
        elim (Option-cases (table.find_key d0 (key_text k))) [
          | inl there ↦ absurd (cc (rw (check_idempotency_key, was, there) at e))
          | inr (m, missing) ↦ elim (Bool-cases (has_text m "no rows")) [
            | inl no_rows ↦ (
              d0,
              recorded_ok (table.store_key d0 (key_text k)) d'
                  (rw (check_idempotency_key, was, missing, no_rows) at e),
            )
            | inr other ↦ absurd (cc (rw (check_idempotency_key, was, missing, other) at e))
          ]
        ]
  ]

  -- After an operation was let through under a key, the key is stored; the next check of the same
  -- key, where the table can be opened, says that the operation has been applied, and changes no
  -- more than opening the table does.
  pub check_idempotency_key_once :
      (k : IdempotencyKey) (d d' : D)
      → check_idempotency_key (some table) k d ≡ (d', ok false)
      → (table.create d').1 ≡ none
      → check_idempotency_key (some table) k d' ≡ ((table.create d').0, ok true)
  unfolding check_idempotency_key after_check
  check_idempotency_key_once k d d' e opened =
      let (d0, stored) = let_through k d d' e in
      let found = laws.store_found d0 (key_text k) (ap (λ x. x.1) stored) in
      let kept =
        laws.create_keeps d' (key_text k)
          (subst (λ x. table.find_key x.0 (key_text k) ≡ none) stored found) in
      rw (check_idempotency_key, checked (key_text k) d' opened, kept) refl
