-- ===== src/Models/PumpPool/NoPanic.antt =====
-- models/pump_pool.go: no access of the decoder passes the end of the account.
use soldex.Base.{
  ℕ, zero, suc, ◌+◌, ◌-◌, ◌≤◌, ◌≡◌, ◌≢◌, refl, ap, ◌∙◌, inl, inr, arith, Bool, true, false, List,
  [], ◌∷◌, ltb, leb, if◌then◌else◌, Result, ok, err, ◌>>=◌, Error, panicked, value_out_of_range,
  Bool-cases, ltb→le, leb→le,
}
use soldex.Models.Bytes.{length, take, drop, slice, range, word, flag, word-ok, flag-ok}
use soldex.Models.PumpPool.{
  SolanaKeys, int128_as_int64, pump_pool_discriminator, same_bytes, key_at, from_length, virtual_at,
  decode_fields, decode_pump_pool,
}

-- The result of a run that does not panic.
abbrev pub NoPanic {ℓ} : {T : Type ℓ} → Result T → Type ℓ
NoPanic r = r ≢ err panicked

NoPanic-ok {ℓ} : {T : Type ℓ} (x : T) → NoPanic (ok x)
NoPanic-ok x = λ h. cc

err-injective {ℓ} : {T : Type ℓ} {e e' : Error} → ◌≡◌ {A = Result T} (err e) (err e') → e ≡ e'
err-injective same = cc

NoPanic->>= {ℓ κ} :
    {T : Type ℓ} {U : Type κ} (r : Result T) (rest : T → Result U)
    → NoPanic r
    → ((x : T) → NoPanic (rest x))
    → NoPanic (r >>= rest)
NoPanic->>= (err e) rest safe safe_rest = λ h. safe (ap err (err-injective h))
NoPanic->>= (ok x) rest safe safe_rest = safe_rest x

length-take {ℓ} : {A : Type ℓ} (n : ℕ) (xs : List A) → n ≤ length xs → length (take n xs) ≡ n
unfolding length take
length-take zero xs h = refl
length-take (suc n) [] h = absurd (omega arith)
length-take (suc n) (x ∷ xs) h = ap suc (length-take n xs (omega arith))

length-drop {ℓ} : {A : Type ℓ} (n : ℕ) (xs : List A) → length (drop n xs) ≡ length xs - n
unfolding length drop
length-drop zero xs = omega arith
length-drop (suc n) [] = omega arith
length-drop (suc n) (x ∷ xs) = length-drop n xs ∙ omega arith

length-slice :
    (from to : ℕ) (bytes : List ℕ) → to ≤ length bytes → length (slice from to bytes) ≡ to - from
unfolding slice
length-slice from to bytes h =
    length-take (to - from) (drop from bytes) (rw (length-drop from bytes) (omega arith))

range-ok :
    (from to : ℕ) (bytes : List ℕ)
    → to ≤ length bytes
    → range from to bytes ≡ ok (slice from to bytes)
unfolding range
range-ok from to bytes h =
    let within : ltb (length bytes) to ≡ false = ground arith in rw within refl

word-NoPanic : (from to : ℕ) (bytes : List ℕ) → to ≤ length bytes → NoPanic (word from to bytes)
word-NoPanic from to bytes h = let (n, e) = word-ok from to bytes h in rw e (NoPanic-ok n)

flag-NoPanic : (at : ℕ) (bytes : List ℕ) → at + 1 ≤ length bytes → NoPanic (flag at bytes)
flag-NoPanic at bytes h = let (b, e) = flag-ok at bytes h in rw e (NoPanic-ok b)

key_at-NoPanic :
    (keys : SolanaKeys) (from : ℕ) (bytes : List ℕ)
    → from + 32 ≤ length bytes
    → NoPanic (key_at keys from bytes)
unfolding key_at
key_at-NoPanic keys from bytes h = rw (range-ok from (from + 32) bytes h) (NoPanic-ok _)

from_length-NoPanic {ℓ} :
    {A : Type ℓ} (end : ℕ) (bytes : List ℕ) (absent : A) (present : Result A)
    → (end ≤ length bytes → NoPanic present)
    → NoPanic (from_length end bytes absent present)
unfolding from_length
from_length-NoPanic end bytes absent present safe = elim (Bool-cases (leb end (length bytes))) [
  | inl long ↦ rw long (safe (leb→le _ _ long))
  | inr short ↦ rw short (NoPanic-ok absent)
]

NoPanic-if {ℓ} :
    {T : Type ℓ} (t : Bool) (x : T) (e : Error) → e ≢ panicked → NoPanic (if t then ok x else err e)
NoPanic-if true x e other = NoPanic-ok x
NoPanic-if false x e other = λ h. other (err-injective h)

int128_as_int64-NoPanic : (b : List ℕ) → 16 ≤ length b → NoPanic (int128_as_int64 b)
unfolding int128_as_int64
int128_as_int64-NoPanic b h =
    let (lo, e₁) = word-ok 0 8 b (omega arith) in
    let (hi, e₂) = word-ok 8 16 b h in rw (e₁, e₂) (NoPanic-if _ _ value_out_of_range (λ e. cc))

virtual_at-NoPanic : (bytes : List ℕ) → 261 ≤ length bytes → NoPanic (virtual_at bytes)
unfolding virtual_at
virtual_at-NoPanic bytes h =
    let len = length-slice 245 261 bytes h in
    rw (range-ok 245 261 bytes h) (int128_as_int64-NoPanic (slice 245 261 bytes) (omega arith))

decode_fields-NoPanic :
    (keys : SolanaKeys) (bytes : List ℕ) (address : keys.PublicKey)
    → 211 ≤ length bytes
    → NoPanic (decode_fields keys bytes address)
unfolding decode_fields
decode_fields-NoPanic keys bytes address long =
    NoPanic->>= _ _ (key_at-NoPanic keys 11 bytes (omega arith)) (λ x0.
      NoPanic->>= _ _ (key_at-NoPanic keys 43 bytes (omega arith)) (λ x1.
        NoPanic->>= _ _ (key_at-NoPanic keys 75 bytes (omega arith)) (λ x2.
          NoPanic->>= _ _ (key_at-NoPanic keys 139 bytes (omega arith)) (λ x3.
            NoPanic->>= _ _ (key_at-NoPanic keys 171 bytes (omega arith)) (λ x4.
              NoPanic->>= _ _
                (from_length-NoPanic 243 bytes _ _ (λ h. key_at-NoPanic keys 211 bytes h))
                (λ x5.
                  NoPanic->>= _ _
                    (from_length-NoPanic 245 bytes _ _ (λ h. flag-NoPanic 244 bytes h))
                    (λ x6.
                      NoPanic->>= _ _
                        (from_length-NoPanic 261 bytes _ _ (λ h. virtual_at-NoPanic bytes h))
                        (λ x7.
                          NoPanic->>= _ _
                            (from_length-NoPanic 269 bytes _ _ (λ h. word-NoPanic 261 269 bytes h))
                            (λ x8.
                              NoPanic->>= _ _
                                (from_length-NoPanic 270 bytes _ _ (λ h. flag-NoPanic 269 bytes h))
                                (λ x9.
                                  NoPanic->>= _ _
                                    (from_length-NoPanic 271 bytes _ _
                                      (λ h. flag-NoPanic 270 bytes h))
                                    (λ x10. NoPanic-ok _)))))))))))

-- Whatever the account's bytes, decoding a pool does not panic: it yields a pool or an error.
pub decode_pump_pool-NoPanic :
    (keys : SolanaKeys) (bytes : List ℕ) (address : keys.PublicKey)
    → NoPanic (decode_pump_pool keys bytes address)
unfolding decode_pump_pool
decode_pump_pool-NoPanic keys bytes address = elim (Bool-cases (ltb (length bytes) 211)) [
  | inl short ↦ rw short (λ h. cc)
  | inr long ↦ elim (Bool-cases (same_bytes (slice 0 8 bytes) pump_pool_discriminator)) [
    | inl named ↦ rw (long, named) (decode_fields-NoPanic keys bytes address (ltb→le _ _ long))
    | inr foreign ↦ rw (long, foreign) (λ h. cc)
  ]
]
