-- ===== src/Error.antt =====
-- src/error.rs: the crate's error type, and the result of a fallible or panicking step.
use dabeacon_indexer.Prelude.{
  ℕ, Bool, true, false, ◌==◌, ◌≡◌, refl, ap, ◌⊎◌, ◌≢◌, inl, inr, List, [], ◌∷◌, Option, none, some,
}

-- Message texts are left out. `http` keeps what `reqwest::Error::is_decode` answers.
pub data Error : Type 0 where
  http : Bool → Error
  beacon_api : ℕ → Error
  json database migration invalid_block_id beacon_data_unavailable : Error
  backfill_epoch : ℕ → Error → Error
  inconsistent_beacon_data : Error

unfoldable pub is_unavailable_input : Error → Bool
is_unavailable_input beacon_data_unavailable = true
is_unavailable_input (beacon_api status) = status == 404
is_unavailable_input _ = false

-- `panic` is a Rust panic, such as an index out of bounds.
pub data Result {ℓ} (A : Type ℓ) : Type ℓ where
  ok : A → Result A
  err : Error → Result A
  panic : Result A

infixl 5 ◌>>=◌ ◌>>◌
abbrev pub ◌>>=◌ {ℓ κ} : {A : Type ℓ} {B : Type κ} → Result A → (A → Result B) → Result B
panic >>= next = panic
err cause >>= next = err cause
ok value >>= next = next value

abbrev pub ◌>>◌ {ℓ} : {B : Type ℓ} → Result (Unit {0}) → Result B → Result B
m >> k = m >>= λ _. k

-- `Option::ok_or_else`.
abbrev pub ok_or {ℓ} : {A : Type ℓ} → Error → Option A → Result A
ok_or e none = err e
ok_or e (some a) = ok a

-- An index expression: it panics out of bounds.
abbrev pub index {ℓ} : {A : Type ℓ} → Option A → Result A
index none = panic
index (some a) = ok a

abbrev pub ensure : Bool → Error → Result (Unit {0})
ensure true e = ok tt
ensure false e = err e

-- `for x in xs { state = step(state, x)?; }`
unfoldable pub for_each {ℓ κ} :
    {S : Type ℓ} {A : Type κ} → (S → A → Result S) → S → List A → Result S
for_each f s [] = ok s
for_each f s (x ∷ xs) = f s x >>= λ t. for_each f t xs

pub >>=-eq-ok {ℓ κ} :
    {A : Type ℓ} {B : Type κ} (step : Result A) (next : A → Result B) {final : B}
    → (step >>= next) ≡ ok final
    → (value : A) × (step ≡ ok value) × (next value ≡ ok final)
>>=-eq-ok panic next h = cc
>>=-eq-ok (err cause) next h = cc
>>=-eq-ok (ok value) next h = (value, refl, h)

pub Result-cases {ℓ} :
    {A : Type ℓ} (r : Result A)
    → ((a : A) × (r ≡ ok a)) ⊎ (((e : Error) × (r ≡ err e)) ⊎ (r ≡ panic))
Result-cases (ok a) = inl (a, refl)
Result-cases (err e) = inr (inl (e, refl))
Result-cases panic = inr (inr refl)

abbrev ok_or_default {ℓ} : {A : Type ℓ} → A → Result A → A
ok_or_default a (ok b) = b
ok_or_default a _ = a

pub ok-injective {ℓ} : {A : Type ℓ} {a b : A} → ok a ≡ ok b → a ≡ b
ok-injective {a = a} e = ap (ok_or_default a) e

-- A bind panics only where one of its parts does.
pub >>=-ne-panic {ℓ κ} :
    {A : Type ℓ} {B : Type κ} (m : Result A) (f : A → Result B)
    → m ≢ panic
    → ((a : A) → m ≡ ok a → f a ≢ panic)
    → (m >>= f) ≢ panic
>>=-ne-panic (ok a) f hm hf = hf a refl
>>=-ne-panic (err e) f hm hf = λ h. cc
>>=-ne-panic panic f hm hf = λ h. hm refl

pub for_each-ne-panic {ℓ κ} :
    {S : Type ℓ} {A : Type κ} (f : S → A → Result S)
    → ((s : S) (a : A) → f s a ≢ panic)
    → (s : S) (xs : List A) → for_each f s xs ≢ panic
unfolding for_each
for_each-ne-panic f hf s [] = λ h. cc
for_each-ne-panic f hf s (x ∷ xs) =
    >>=-ne-panic (f s x) _ (hf s x) (λ t _. for_each-ne-panic f hf t xs)

pub ok_or-ne-panic {ℓ} : {A : Type ℓ} (e : Error) (o : Option A) → ok_or e o ≢ panic
ok_or-ne-panic e none = λ h. cc
ok_or-ne-panic e (some a) = λ h. cc

module _ {ℓ κ} {A : Type ℓ} {B : Type κ} (e : Error) where
  pub ok_or->>=-ne-panic :
      (o : Option A) (f : A → Result B) → ((a : A) → f a ≢ panic) → (ok_or e o >>= f) ≢ panic
  ok_or->>=-ne-panic none f hf = λ h. cc
  ok_or->>=-ne-panic (some a) f hf = hf a

pub ensure->>-ne-panic {ℓ} :
    {B : Type ℓ} (e : Error) (b : Bool) (k : Result B) → k ≢ panic → (ensure b e >> k) ≢ panic
ensure->>-ne-panic e true k hk = hk
ensure->>-ne-panic e false k hk = λ h. cc

pub ok-ne-panic {ℓ} : {A : Type ℓ} (a : A) → ok a ≢ panic
ok-ne-panic a = λ h. cc

pub ensure-ok : (b : Bool) (e : Error) {u : Unit {0}} → ensure b e ≡ ok u → b ≡ true
ensure-ok true e h = refl
ensure-ok false e h = cc

pub ok_or-ok {ℓ} : {A : Type ℓ} (e : Error) (o : Option A) {a : A} → ok_or e o ≡ ok a → o ≡ some a
ok_or-ok e none h = cc
ok_or-ok e (some b) h = ap some (ok-injective h)
