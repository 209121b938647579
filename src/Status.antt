-- ===== src/Status.antt =====
-- The results of the code: `crex_status_t` of include/crex.h, with `CREX_OK` as `ok` and its value.
-- Two results are no status of the source. `undefined` is behaviour that C leaves undefined, such as
-- a read past the end of an array. `out_of_fuel` is a loop that was given too few rounds.
use crex.Base.{◌≡◌, refl, true}

pub data Status : Type 0 where
  nomem bad_escape bad_character_class bad_repetition : Status
  unmatched_open_paren unmatched_close_paren : Status

pub data Result {ℓ} (A : Type ℓ) : Type ℓ where
  ok : A → Result A
  err : Status → Result A
  undefined out_of_fuel : Result A

module _ {ℓ κ} {A : Type ℓ} {B : Type κ} where
  infixl 5 ◌>>=◌
  abbrev pub ◌>>=◌ : Result A → (A → Result B) → Result B
  undefined >>= next = undefined
  out_of_fuel >>= next = out_of_fuel
  err status >>= next = err status
  ok value >>= next = next value

-- What holds of a value, if there is one.
pub data Ensures {ℓ κ} {A : Type ℓ} (P : A → Type κ) : Result A → Type (ℓ ⊔ κ) where
  returns : {a : A} → P a → Ensures P (ok a)
  fails : {e : Status} → Ensures P (err e)
  faults : Ensures P undefined

pub Ensures-ok {ℓ κ} : {A : Type ℓ} {P : A → Type κ} {a : A} → Ensures P (ok a) → P a
Ensures-ok (returns h) = h

pub Ensures-bind {ℓ κ μ ν} :
    {A : Type ℓ} {B : Type κ} {P : A → Type μ} {Q : B → Type ν} {m : Result A} {f : A → Result B}
    → Ensures P m
    → ((a : A) → P a → Ensures Q (f a))
    → Ensures Q (m >>= f)
Ensures-bind (returns h) k = k _ h
Ensures-bind fails k = fails
Ensures-bind faults k = faults

-- The rest of a chain may use which value the first part gave.
pub Ensures-bind_eq {ℓ κ μ ν} :
    {A : Type ℓ} {B : Type κ} {P : A → Type μ} {Q : B → Type ν} {m : Result A} {f : A → Result B}
    → Ensures P m
    → ((a : A) → m ≡ ok a → P a → Ensures Q (f a))
    → Ensures Q (m >>= f)
Ensures-bind_eq (returns h) k = k _ refl h
Ensures-bind_eq fails k = fails
Ensures-bind_eq faults k = faults

pub Ensures-weaken {ℓ κ μ} :
    {A : Type ℓ} {P : A → Type κ} {Q : A → Type μ} {m : Result A}
    → ((a : A) → P a → Q a)
    → Ensures P m
    → Ensures Q m
Ensures-weaken k (returns h) = returns (k _ h)
Ensures-weaken k fails = fails
Ensures-weaken k faults = faults

-- A result that is a status or a value with a property, and no undefined behaviour.
pub data Safely {ℓ κ} {A : Type ℓ} (P : A → Type κ) : Result A → Type (ℓ ⊔ κ) where
  safe : {a : A} → P a → Safely P (ok a)
  stops : {e : Status} → Safely P (err e)

pub Safely-bind {ℓ κ μ ν} :
    {A : Type ℓ} {B : Type κ} {P : A → Type μ} {Q : B → Type ν} {m : Result A} {f : A → Result B}
    → Safely P m
    → ((a : A) → P a → Safely Q (f a))
    → Safely Q (m >>= f)
Safely-bind (safe h) k = k _ h
Safely-bind stops k = stops

pub Safely-Ensures {ℓ κ} : {A : Type ℓ} {P : A → Type κ} {m : Result A} → Safely P m → Ensures P m
Safely-Ensures (safe h) = returns h
Safely-Ensures stops = fails

-- What holds of a value, if there is one, and nothing of a loop that has no fuel left.
pub data Allows {ℓ κ} {A : Type ℓ} (P : A → Type κ) : Result A → Type (ℓ ⊔ κ) where
  gives : {a : A} → P a → Allows P (ok a)
  refuses : {e : Status} → Allows P (err e)
  breaks : Allows P undefined
  runs_out : Allows P out_of_fuel

pub Allows-bind {ℓ κ μ ν} :
    {A : Type ℓ} {B : Type κ} {P : A → Type μ} {Q : B → Type ν} {m : Result A} {f : A → Result B}
    → Allows P m
    → ((a : A) → P a → Allows Q (f a))
    → Allows Q (m >>= f)
Allows-bind (gives h) k = k _ h
Allows-bind refuses k = refuses
Allows-bind breaks k = breaks
Allows-bind runs_out k = runs_out

pub Allows-weaken {ℓ κ μ} :
    {A : Type ℓ} {P : A → Type κ} {Q : A → Type μ} {m : Result A}
    → ((a : A) → P a → Q a)
    → Allows P m
    → Allows Q m
Allows-weaken k (gives h) = gives (k _ h)
Allows-weaken k refuses = refuses
Allows-weaken k breaks = breaks
Allows-weaken k runs_out = runs_out

pub Ensures-Allows {ℓ κ} : {A : Type ℓ} {P : A → Type κ} {m : Result A} → Ensures P m → Allows P m
Ensures-Allows (returns h) = gives h
Ensures-Allows fails = refuses
Ensures-Allows faults = breaks

-- A loop that has fuel enough ensures whatever it allows.
pub Ensures-both {ℓ κ μ} :
    {A : Type ℓ} {P : A → Type κ} {Q : A → Type μ} {m : Result A}
    → Ensures P m
    → Allows Q m
    → Ensures (λ a. P a × Q a) m
Ensures-both (returns h) (gives k) = returns (h, k)
Ensures-both fails k = fails
Ensures-both faults k = faults

-- No undefined behaviour.
pub data IsDefined {ℓ} {A : Type ℓ} : Result A → Type ℓ where
  value : {a : A} → IsDefined (ok a)
  status : {e : Status} → IsDefined (err e)
  no_fuel : IsDefined out_of_fuel

pub IsDefined-bind {ℓ κ μ} :
    {A : Type ℓ} {B : Type κ} {P : A → Type μ} {m : Result A} {f : A → Result B}
    → IsDefined m
    → Allows P m
    → ((a : A) → P a → IsDefined (f a))
    → IsDefined (m >>= f)
IsDefined-bind value (gives h) k = k _ h
IsDefined-bind status h k = status
IsDefined-bind no_fuel h k = no_fuel

pub IsDefined-Safely {ℓ κ} :
    {A : Type ℓ} {P : A → Type κ} {m : Result A} → IsDefined m → Ensures P m → Safely P m
IsDefined-Safely value (returns h) = safe h
IsDefined-Safely status fails = stops
IsDefined-Safely no_fuel h = elim h [ ]

-- A result that is a value with a property.
pub data Yields {ℓ κ} {A : Type ℓ} (P : A → Type κ) : Result A → Type (ℓ ⊔ κ) where
  yields : {a : A} → P a → Yields P (ok a)

pub Yields-bind {ℓ κ μ ν} :
    {A : Type ℓ} {B : Type κ} {P : A → Type μ} {Q : B → Type ν} {m : Result A} {f : A → Result B}
    → Yields P m
    → ((a : A) → P a → Yields Q (f a))
    → Yields Q (m >>= f)
Yields-bind (yields h) k = k _ h

pub Yields-weaken {ℓ κ μ} :
    {A : Type ℓ} {P : A → Type κ} {Q : A → Type μ} {m : Result A}
    → ((a : A) → P a → Q a)
    → Yields P m
    → Yields Q m
Yields-weaken k (yields h) = yields (k _ h)

-- The statuses that a result may be, whatever else it is.
pub data FailsAs {ℓ κ} {A : Type ℓ} (E : Status → Type κ) : Result A → Type (ℓ ⊔ κ) where
  passes : {a : A} → FailsAs E (ok a)
  stops_as : {e : Status} → E e → FailsAs E (err e)
  undefined_as : FailsAs E undefined
  no_fuel_as : FailsAs E out_of_fuel

pub FailsAs-bind {ℓ κ μ} :
    {A : Type ℓ} {B : Type κ} {E : Status → Type μ} {m : Result A} {f : A → Result B}
    → FailsAs E m
    → ((a : A) → FailsAs E (f a))
    → FailsAs E (m >>= f)
FailsAs-bind passes k = k _
FailsAs-bind (stops_as h) k = stops_as h
FailsAs-bind undefined_as k = undefined_as
FailsAs-bind no_fuel_as k = no_fuel_as

-- A value with a property or one of these statuses, and no undefined behaviour.
pub data Reports {ℓ κ μ} {A : Type ℓ} (P : A → Type κ) (E : Status → Type μ)
    : Result A → Type (ℓ ⊔ κ ⊔ μ) where
  reports : {a : A} → P a → Reports P E (ok a)
  refuses_as : {e : Status} → E e → Reports P E (err e)

pub Safely-Reports {ℓ κ μ} :
    {A : Type ℓ} {P : A → Type κ} {E : Status → Type μ} {m : Result A}
    → Safely P m
    → FailsAs E m
    → Reports P E m
Safely-Reports (safe h) k = reports h
Safely-Reports stops (stops_as k) = refuses_as k

pub Safely-both {ℓ κ μ} :
    {A : Type ℓ} {P : A → Type κ} {Q : A → Type μ} {m : Result A}
    → Safely P m
    → Allows Q m
    → Safely (λ a. P a × Q a) m
Safely-both (safe h) (gives k) = safe (h, k)
Safely-both stops k = stops

pub Allows-any {ℓ} : {A : Type ℓ} (m : Result A) → Allows (λ _. true ≡ true) m
Allows-any (ok a) = gives refl
Allows-any (err e) = refuses
Allows-any undefined = breaks
Allows-any out_of_fuel = runs_out

-- What holds of a value, and which statuses a result may be, and nothing of other results.
pub data Ends {ℓ κ μ} {A : Type ℓ} (P : A → Type κ) (E : Status → Type μ)
    : Result A → Type (ℓ ⊔ κ ⊔ μ) where
  with_value : {a : A} → P a → Ends P E (ok a)
  with_status : {e : Status} → E e → Ends P E (err e)
  with_undefined : Ends P E undefined
  with_no_fuel : Ends P E out_of_fuel

pub Ends-bind {ℓ κ μ ν ξ} :
    {A : Type ℓ} {B : Type κ} {P : A → Type μ} {Q : B → Type ν} {E : Status → Type ξ} {m : Result A}
    {f : A → Result B}
    → Ends P E m
    → ((a : A) → P a → Ends Q E (f a))
    → Ends Q E (m >>= f)
Ends-bind (with_value h) k = k _ h
Ends-bind (with_status h) k = with_status h
Ends-bind with_undefined k = with_undefined
Ends-bind with_no_fuel k = with_no_fuel

pub Ends-FailsAs {ℓ κ μ} :
    {A : Type ℓ} {P : A → Type κ} {E : Status → Type μ} {m : Result A} → Ends P E m → FailsAs E m
Ends-FailsAs (with_value h) = passes
Ends-FailsAs (with_status h) = stops_as h
Ends-FailsAs with_undefined = undefined_as
Ends-FailsAs with_no_fuel = no_fuel_as
