-- ===== src/Leds/Ended.antt =====
-- The service of src/core/LEDs.cpp once the registrations of its handlers have ended.
use Prim.Native.String.{String}
use gemian_leds.Base.{
  ◌≤◌, ◌≡◌, refl, ap, ◌∙◌, Bool, true, false, Option, none, some, List, [], ◌∷◌, ◌++◌, arith, All,
  if◌then◌else◌, Bool-cases, inl, inr,
}
use gemian_leds.Leds.Request.{Variants}
use gemian_leds.Leds.Service.{
  Leds, null_handler, unregister_caps_lock_handler, unregister_clear_block_handler,
  unregister_push_block_handler, unregister_block_handler, unregister_torch_handler,
  unregister_call_handler,
}
use gemian_leds.Leds.Method.{
  Method, set_caps_lock, set_led_block_step, clear_led_block_animation, push_led_block_animation,
  set_torch, set_call, unknown_method, handle_request,
}
use gemian_leds.Leds.Requests.{
  meant, answer, invoke, invoked, block_args, handle_request_lem, verified,
}
use gemian_leds.Registration.Handle.{Operation, Store, operate_all}
use gemian_leds.Registration.Cells.{count, IsDestroyed}
use gemian_leds.Registration.Once.{given, empty_store, operate_all-once}

-- The six registrations, named for what their ends undo.
pub data Handler : Type 0 where
  caps_lock clear_block push_block block torch call : Handler

abbrev pub all_handlers : List Handler
all_handlers = caps_lock ∷ block ∷ clear_block ∷ push_block ∷ torch ∷ call ∷ []

abbrev is : Handler → Handler → Bool
is caps_lock caps_lock = true
is clear_block clear_block = true
is push_block push_block = true
is block block = true
is torch torch = true
is call call = true
is _ _ = false

once : (h : Handler) → count (is h) all_handlers ≡ 1
once caps_lock = refl
once clear_block = refl
once push_block = refl
once block = refl
once torch = refl
once call = refl

module _ {S : Type 0} where
  unfoldable pub unregister : Handler → Leds S → Leds S
  unfolding unregister_caps_lock_handler unregister_clear_block_handler
      unregister_push_block_handler unregister_block_handler unregister_torch_handler
      unregister_call_handler
  unregister caps_lock = unregister_caps_lock_handler
  unregister clear_block = unregister_clear_block_handler
  unregister push_block = unregister_push_block_handler
  unregister block = unregister_block_handler
  unregister torch = unregister_torch_handler
  unregister call = unregister_call_handler

  -- The functions that the registrations call, one after the other.
  unfoldable pub unregister_all : List Handler → Leds S → Leds S
  unregister_all [] l = l
  unregister_all (h ∷ hs) l = unregister_all hs (unregister h l)

  abbrev IsNull : Handler → Leds S → Type 0
  IsNull caps_lock l = l.caps_lock_handler ≡ null_handler
  IsNull clear_block l = l.clear_block_handler ≡ null_handler
  IsNull push_block l = l.push_block_handler ≡ null_handler
  IsNull block l = l.block_handler ≡ null_handler
  IsNull torch l = l.torch_handler ≡ null_handler
  IsNull call l = l.call_handler ≡ null_handler

  unregister-IsNull : (h j : Handler) (l : Leds S) → IsNull h l → IsNull h (unregister j l)
  unfolding unregister
  unregister-IsNull caps_lock caps_lock l e = refl
  unregister-IsNull clear_block clear_block l e = refl
  unregister-IsNull push_block push_block l e = refl
  unregister-IsNull block block l e = refl
  unregister-IsNull torch torch l e = refl
  unregister-IsNull call call l e = refl
  unregister-IsNull _ _ l e = e

  unregister_all-IsNull :
      (h : Handler) (hs : List Handler) (l : Leds S) → IsNull h l → IsNull h (unregister_all hs l)
  unfolding unregister_all
  unregister_all-IsNull h [] l e = e
  unregister_all-IsNull h (j ∷ hs) l e =
      unregister_all-IsNull h hs (unregister j l) (unregister-IsNull h j l e)

  unregister_same : (h j : Handler) (l : Leds S) → is h j ≡ true → IsNull h (unregister j l)
  unfolding unregister
  unregister_same caps_lock caps_lock l e = refl
  unregister_same clear_block clear_block l e = refl
  unregister_same push_block push_block l e = refl
  unregister_same block block l e = refl
  unregister_same torch torch l e = refl
  unregister_same call call l e = refl
  unregister_same _ _ l e = absurd (cc e)

  unregister_all_counted :
      (h : Handler) (hs : List Handler) (l : Leds S)
      → 1 ≤ count (is h) hs
      → IsNull h (unregister_all hs l)
  unfolding unregister_all
  unregister_all_counted h [] l c = absurd (omega arith)
  unregister_all_counted h (j ∷ hs) l c = elim (Bool-cases (is h j)) [
    | inl e ↦ unregister_all-IsNull h hs (unregister j l) (unregister_same h j l e)
    | inr e ↦ unregister_all_counted h hs (unregister j l) (ground arith)
  ]

  -- What the end of a registration leaves.
  abbrev IsKept : Leds S → Leds S → Type 0
  IsKept l m = (m.client ≡ l.client) × (m.replies ≡ l.replies) × (m.timeouts ≡ l.timeouts)

  unregister-IsKept : (h : Handler) (l : Leds S) → IsKept l (unregister h l)
  unfolding unregister
  unregister-IsKept caps_lock l = (refl, refl, refl)
  unregister-IsKept _ l = (refl, refl, refl)

  unregister_all-IsKept : (hs : List Handler) (l : Leds S) → IsKept l (unregister_all hs l)
  unfolding unregister_all
  unregister_all-IsKept [] l = (refl, refl, refl)
  unregister_all-IsKept (h ∷ hs) l =
      let (a, b, c) = unregister-IsKept h l in
      let (d, e, f) = unregister_all-IsKept hs (unregister h l) in (d ∙ a, e ∙ b, f ∙ c)

  -- No handler that a request calls does anything.
  invoked-null :
      {V : Type 0} (glib : Variants V) (m : Method) (p : V) (l : Leds S)
      → ((h : Handler) → IsNull h l)
      → invoked glib m p l ≡ (none, l.client)
  invoked-null glib set_caps_lock p l n = ap (λ f. invoke f (glib.get_b p) l.client) (n caps_lock)
  invoked-null glib set_led_block_step p l n = elim (Bool-cases (verified (glib.get_uuuu p))) [
    | inl e ↦
        ap
          (λ b.
            if b
            then invoke l.block_handler (block_args (glib.get_uuuu p)) l.client
            else (none, l.client))
          e
        ∙ ap (λ f. invoke f (block_args (glib.get_uuuu p)) l.client) (n block)
    | inr e ↦
        ap
          (λ b.
            if b
            then invoke l.block_handler (block_args (glib.get_uuuu p)) l.client
            else (none, l.client))
          e
  ]
  invoked-null glib clear_led_block_animation p l n = ap (λ f. invoke f tt l.client) (n clear_block)
  invoked-null glib push_led_block_animation p l n = ap (λ f. invoke f tt l.client) (n push_block)
  invoked-null glib set_torch p l n = ap (λ f. invoke f (glib.get_bu p).0 l.client) (n torch)
  invoked-null glib set_call p l n = ap (λ f. invoke f (glib.get_bb p) l.client) (n call)
  invoked-null glib unknown_method p l n = refl

  -- Once the six registrations have ended, however they were moved about before, a request reaches no
  -- client: it leaves the client's state, and is answered as by handlers that throw nothing.
  pub ended-handle_request :
      {V : Type 0} (ops : List (Operation Handler)) (s : Store Handler) (glib : Variants V)
      (name : Option String) (p : V) (l : Leds S)
      → operate_all ops empty_store ≡ some s
      → All IsDestroyed s.cells
      → given ops ≡ all_handlers
      → ((handle_request glib name p (unregister_all s.calls l)).client ≡ l.client)
        × ((handle_request glib name p (unregister_all s.calls l)).replies
            ≡ l.replies ++ answer (meant name) none ∷ [])
  ended-handle_request ops s glib name p l o d g =
      let m = unregister_all s.calls l in
      let (client, replies, timeouts) = unregister_all-IsKept s.calls l in
      let called = λ (h : Handler). operate_all-once (is h) ops s o d ∙ ap (count (is h)) g in
      let silent =
        invoked-null glib (meant name) p m
          (λ h. unregister_all_counted h s.calls l (omega (arith, called h, once h))) in
      let after = handle_request_lem glib name p m in
      (
        ap (λ k. k.client) after ∙ ap (λ r. r.1) silent ∙ client,
        ap (λ k. k.replies) after
            ∙ ap (λ r. m.replies ++ answer (meant name) r.0 ∷ []) silent
            ∙ ap (λ r. r ++ answer (meant name) none ∷ []) replies,
      )
