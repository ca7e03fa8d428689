-- ===== src/System/Torch.antt =====
-- The timeouts of the torch, `SetTorch` of src/core/LEDs.cpp with the handlers of src/core/Daemon.cpp.
use gemian_leds.Base.{ℕ, ◌<◌, ◌≡◌, ap, ◌∙◌, true, false, some, [], ◌∷◌, ◌++◌, append_assoc, arith}
use gemian_leds.Leds.Request.{Variants, return_value}
use gemian_leds.Leds.Service.{Leds}
use gemian_leds.Leds.Method.{handle_request, torch_timeout}
use gemian_leds.Leds.Requests.{handle_request_lem}
use gemian_leds.Daemon.Queue.{Daemon, torch, enqueue_action}
use gemian_leds.System.Fits.{IsRegistered, same_handlers, timeout_lem}

module _ {V : Type 0} (glib : Variants V) where
  set_torch_lem :
      (p : V) (l : Leds Daemon) (d : ℕ)
      → IsRegistered l
      → glib.get_bu p ≡ (true, d)
      → 0 < d
      → handle_request glib (some "SetTorch") p l ≡ record l {
        client = enqueue_action (torch true) l.client;
        replies = l.replies ++ return_value ∷ [];
        timeouts = l.timeouts ++ d ∷ [];
      }
  set_torch_lem p l d r e h = handle_request_lem glib (some "SetTorch") p l ∙ ground arith

  -- Two timed torches in a row: the end of the first one's timeout puts a switch-off into the queue
  -- while the second one's timeout is still pending, so the second torch does not last for its time.
  pub torch_cut_short :
      (p q : V) (l : Leds Daemon) (d e : ℕ)
      → IsRegistered l
      → l.timeouts ≡ []
      → glib.get_bu p ≡ (true, d)
      → glib.get_bu q ≡ (true, e)
      → 0 < d
      → 0 < e
      → let m =
          handle_request glib (some "SetTorch") q (handle_request glib (some "SetTorch") p l) in
        let n = (torch_timeout (record m { timeouts = e ∷ [] })).1 in
        (m.timeouts ≡ d ∷ e ∷ [])
        × (n.client.action_queue
            ≡ l.client.action_queue ++ torch true ∷ torch true ∷ torch false ∷ [])
        × (n.timeouts ≡ e ∷ [])
  torch_cut_short p q l d e r empty hp hq pos_d pos_e = (
    ap (λ x. x.timeouts) both ∙ ap (λ ts. (ts ++ d ∷ []) ++ e ∷ []) empty,
    ap (λ x. x.client.action_queue) off ∙ queue,
    ap (λ x. x.timeouts) off,
  )
    where
      l1 : Leds Daemon
      l1 = record l {
        client = enqueue_action (torch true) l.client;
        replies = l.replies ++ return_value ∷ [];
        timeouts = l.timeouts ++ d ∷ [];
      }

      l2 : Leds Daemon
      l2 = record l1 {
        client = enqueue_action (torch true) l1.client;
        replies = l1.replies ++ return_value ∷ [];
        timeouts = l1.timeouts ++ e ∷ [];
      }

      both :
          handle_request glib (some "SetTorch") q (handle_request glib (some "SetTorch") p l) ≡ l2
      both =
          ap (handle_request glib (some "SetTorch") q) (set_torch_lem p l d r hp pos_d)
          ∙ set_torch_lem q l1 e (same_handlers l _ _ _ r) hq pos_e

      off :
          (torch_timeout
            (record (handle_request glib
              (some "SetTorch")
              q
              (handle_request glib (some "SetTorch") p l)) { timeouts = e ∷ [] })).1
          ≡ record l2 { client = enqueue_action (torch false) l2.client; timeouts = e ∷ [] }
      off =
          ap (λ x. (torch_timeout (record x { timeouts = e ∷ [] })).1) both
          ∙ timeout_lem (record l2 { timeouts = e ∷ [] }) (same_handlers l _ _ _ r)

      queue :
          (enqueue_action (torch false) l2.client).action_queue
          ≡ l.client.action_queue ++ torch true ∷ torch true ∷ torch false ∷ []
      queue = unfold enqueue_action in simp append_assoc
