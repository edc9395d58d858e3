-- ===== src/Cmd/Exit.antt =====
-- How a command line program ends: it goes on with a value, or log.Fatalf ends it, or a panic does.
use ska_low_station_beam_sim.Prelude.{◌≡◌, refl, Option, none, some}

pub data Exit {ℓ} (A : Type ℓ) : Type ℓ where
  finished : A → Exit A
  fatal panicked : Exit A

infixl 5 ◌>>=◌
abbrev pub ◌>>=◌ {ℓ κ} : {A : Type ℓ} {B : Type κ} → Exit A → (A → Exit B) → Exit B
◌>>=◌ (finished a) next = next a
◌>>=◌ fatal next = fatal
◌>>=◌ panicked next = panicked

module _ {ℓ} {A : Type ℓ} where
  abbrev pub or_panic : Option A → Exit A
  or_panic none = panicked
  or_panic (some a) = finished a

  abbrev pub or_fatal : Option A → Exit A
  or_fatal none = fatal
  or_fatal (some a) = finished a

pub >>=-assoc {ℓ κ μ} :
    {A : Type ℓ} {B : Type κ} {C : Type μ} (e : Exit A) (f : A → Exit B) (g : B → Exit C)
    → ((e >>= f) >>= g) ≡ (e >>= λ a. f a >>= g)
>>=-assoc (finished a) f g = refl
>>=-assoc fatal f g = refl
>>=-assoc panicked f g = refl
