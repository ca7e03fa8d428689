-- ===== src/Configuration/Extends.antt =====
-- A configuration of src/core/DaemonConfig.cpp that has grown: what is set and made is kept.
use gemian_leds.Base.{ℕ, zero, suc, ◌≡◌, refl, Option, none, some, List, [], ◌∷◌, ◌++◌, length}
use gemian_leds.Configuration.Config.{DaemonConfig, Object, make_shared}

abbrev pub get_elem? {ℓ} : {A : Type ℓ} → List A → ℕ → Option A
get_elem? [] n = none
get_elem? (x ∷ xs) zero = some x
get_elem? (x ∷ xs) (suc n) = get_elem? xs n

pub get_elem?-append {ℓ} :
    {A : Type ℓ} (xs ys : List A) (n : ℕ) (x : A)
    → get_elem? xs n ≡ some x
    → get_elem? (xs ++ ys) n ≡ some x
get_elem?-append [] ys n x h = absurd (cc h)
get_elem?-append (y ∷ xs) ys zero x h = h
get_elem?-append (y ∷ xs) ys (suc n) x h = get_elem?-append xs ys n x h

pub get_elem?_last {ℓ} :
    {A : Type ℓ} (xs : List A) (x : A) → get_elem? (xs ++ x ∷ []) (length xs) ≡ some x
get_elem?_last [] x = refl
get_elem?_last (y ∷ xs) x = get_elem?_last xs x

-- A pointer that is set stays.
abbrev pub Keeps : Option ℕ → Option ℕ → Type 0
Keeps p q = (a : ℕ) → p ≡ some a → q ≡ some a

-- The pointers that are set, and the objects, are still there.
pub record Extends (c c' : DaemonConfig) : Type 0 where
  pub log : Keeps c.log c'.log
  pub leds : Keeps c.leds c'.leds
  pub connection_watcher : Keeps c.connection_watcher c'.connection_watcher
  pub light_state : Keeps c.light_state c'.light_state
  pub made : (n : ℕ) (o : Object) → get_elem? c.made n ≡ some o → get_elem? c'.made n ≡ some o

pub Extends-refl : (c : DaemonConfig) → Extends c c
Extends-refl c = record {
  log = λ a h. h;
  leds = λ a h. h;
  connection_watcher = λ a h. h;
  light_state = λ a h. h;
  made = λ n o h. h;
}

pub Extends-trans : (c c' c'' : DaemonConfig) → Extends c c' → Extends c' c'' → Extends c c''
Extends-trans c c' c'' e f = record {
  log = λ a h. f.log a (e.log a h);
  leds = λ a h. f.leds a (e.leds a h);
  connection_watcher = λ a h. f.connection_watcher a (e.connection_watcher a h);
  light_state = λ a h. f.light_state a (e.light_state a h);
  made = λ n o h. f.made n o (e.made n o h);
}

pub Keeps-none : (p q : Option ℕ) → p ≡ none → Keeps p q
Keeps-none p q e a h = absurd (cc (e, h))

pub make_shared-Extends : (o : Object) (c : DaemonConfig) → Extends c (make_shared o c).1
make_shared-Extends o c = record {
  log = λ a h. h;
  leds = λ a h. h;
  connection_watcher = λ a h. h;
  light_state = λ a h. h;
  made = λ n x h. get_elem?-append c.made (o ∷ []) n x h;
}

pub set_log-Extends :
    (a : ℕ) (c : DaemonConfig) → c.log ≡ none → Extends c (record c { log = some a })
set_log-Extends a c e = record {
  log = Keeps-none c.log (some a) e;
  leds = λ a h. h;
  connection_watcher = λ a h. h;
  light_state = λ a h. h;
  made = λ n o h. h;
}

pub set_leds-Extends :
    (a : ℕ) (c : DaemonConfig) → c.leds ≡ none → Extends c (record c { leds = some a })
set_leds-Extends a c e = record {
  log = λ a h. h;
  leds = Keeps-none c.leds (some a) e;
  connection_watcher = λ a h. h;
  light_state = λ a h. h;
  made = λ n o h. h;
}

pub set_connection_watcher-Extends :
    (a : ℕ) (c : DaemonConfig)
    → c.connection_watcher ≡ none
    → Extends c (record c { connection_watcher = some a })
set_connection_watcher-Extends a c e = record {
  log = λ a h. h;
  leds = λ a h. h;
  connection_watcher = Keeps-none c.connection_watcher (some a) e;
  light_state = λ a h. h;
  made = λ n o h. h;
}

pub set_light_state-Extends :
    (a : ℕ) (c : DaemonConfig)
    → c.light_state ≡ none
    → Extends c (record c { light_state = some a })
set_light_state-Extends a c e = record {
  log = λ a h. h;
  leds = λ a h. h;
  connection_watcher = λ a h. h;
  light_state = Keeps-none c.light_state (some a) e;
  made = λ n o h. h;
}
