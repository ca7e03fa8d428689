-- ===== src/System/Hosted/View.antt =====
-- The timeouts of the daemon as sources of the event loop of its service.
use gemian_leds.Base.{
  ℕ, ◌≡◌, refl, sym, ap, ◌∙◌, true, List, [], ◌∷◌, ◌++◌, append_assoc, append-nil, Bool, false, All,
  All-append,
}
use gemian_leds.Daemon.Queue.{Daemon}
use gemian_leds.EventLoop.Loop.{Source, Trigger, promised, watching, schedule_in}
use gemian_leds.Leds.Method.{torch_timeout, call_slot}
use gemian_leds.Leds.Service.{Leds, Slot, empty, target}
use gemian_leds.System.Hosted.{Host, schedule_all}

-- The times of the sources that wait for one.
abbrev pub durations : List (Source (Leds Daemon)) → List ℕ
durations [] = []
durations (promised (Trigger.timeout d) callback n ∷ rest) = d ∷ durations rest
durations (_ ∷ rest) = durations rest

-- A source with the task of the torch's timeout.
abbrev pub IsTorch : Source (Leds Daemon) → Type 0
IsTorch (promised (Trigger.timeout d) callback n) = callback ≡ torch_timeout
IsTorch _ = ⊥

-- The daemon, with the list of its timeouts for its loop.
abbrev pub view : Host → Leds Daemon
view e = record e.client { timeouts = durations e.sources }

pub record Inv (e : Host) : Type 0 where
  pub context : e.has_main_context ≡ true
  pub torches : All IsTorch e.sources

pub durations-append :
    (xs ys : List (Source (Leds Daemon))) → durations (xs ++ ys) ≡ durations xs ++ durations ys
durations-append [] ys = refl
durations-append (promised (Trigger.timeout d) c n ∷ xs) ys = ap (◌∷◌ d) (durations-append xs ys)
durations-append (promised Trigger.idle c n ∷ xs) ys = durations-append xs ys
durations-append (promised (Trigger.input_at m) c n ∷ xs) ys = durations-append xs ys
durations-append (watching t c ∷ xs) ys = durations-append xs ys

-- What `schedule_in` leaves of the loop.
pub record Scheduled (ds : List ℕ) (e f : Host) : Type 0 where
  pub same : f.client ≡ e.client
  pub added : durations f.sources ≡ durations e.sources ++ ds
  pub kept : Inv f

schedule_in-Scheduled :
    (d : ℕ) (e : Host) → Inv e → Scheduled (d ∷ []) e (schedule_in d torch_timeout e).1
unfolding schedule_in
schedule_in-Scheduled d e v = rw v.context (record {
  same = refl;
  added = durations-append e.sources _;
  kept = record { context = refl; torches = All-append IsTorch e.sources _ v.torches (refl, tt) };
})

pub schedule_all-Scheduled : (ds : List ℕ) (e : Host) → Inv e → Scheduled ds e (schedule_all ds e)
unfolding schedule_all
schedule_all-Scheduled [] e v = record { same = refl; added = sym (append-nil _); kept = v }
schedule_all-Scheduled (d ∷ ds) e v =
    let one = schedule_in-Scheduled d e v in
    let more = schedule_all-Scheduled ds (schedule_in d torch_timeout e).1 one.kept in
    record {
      same = more.same ∙ one.same;
      added =
          more.added
          ∙ ap (λ xs. xs ++ ds) one.added
          ∙ append_assoc (durations e.sources) (d ∷ []) ds;
      kept = more.kept;
    }

call_slot-timeouts :
    (h : Slot Bool Daemon) (ts : List ℕ) (l : Leds Daemon)
    → (call_slot h false (record l { timeouts = ts })).1
      ≡ record (call_slot h false l).1 { timeouts = ts }
call_slot-timeouts empty ts l = refl
call_slot-timeouts (target f) ts l = refl

pub torch_timeout-timeouts :
    (ts : List ℕ) (l : Leds Daemon)
    → (torch_timeout (record l { timeouts = ts })).1 ≡ record (torch_timeout l).1 { timeouts = ts }
unfolding torch_timeout
torch_timeout-timeouts ts l = call_slot-timeouts l.torch_handler ts l
