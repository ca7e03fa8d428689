-- ===== src/Daemon/Handlers.antt =====
-- src/core/Daemon.cpp, `register_event_handlers`: each handler of the service puts one closure into
-- the queue.
use gemian_leds.Base.{none}
use gemian_leds.Daemon.Queue.{
  Daemon, Action, caps_lock, set_block_rgb, clear_block, push_block, torch, call, enqueue_action,
}
use gemian_leds.Leds.Service.{
  Leds, Effect, register_caps_lock_handler, register_clear_block_handler,
  register_push_block_handler, register_block_handler, register_torch_handler,
  register_call_handler,
}

abbrev pub enqueues : Action → Effect Daemon
enqueues a d = (none, enqueue_action a d)

unfoldable pub register_event_handlers : Leds Daemon → Leds Daemon
unfolding register_caps_lock_handler register_block_handler register_clear_block_handler
    register_push_block_handler register_torch_handler register_call_handler
register_event_handlers l =
    register_call_handler (λ (earpiece, left_up). enqueues (call earpiece left_up))
      (register_torch_handler (λ on. enqueues (torch on))
        (register_push_block_handler (λ _. enqueues push_block)
          (register_clear_block_handler (λ _. enqueues clear_block)
            (register_block_handler
              (λ (led, colour, type, value). enqueues (set_block_rgb led colour type value))
              (register_caps_lock_handler (λ state. enqueues (caps_lock state)) l)))))
