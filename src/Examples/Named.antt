-- ===== src/Examples/Named.antt =====
-- The name of the thread of the loop of src/core/ConnectionWatcher.cpp, which has 17 bytes.
use gemian_leds.Base.{◌≤◌, ◌≡◌, refl, ◌++◌, [], ◌∷◌, length, leb, arith, if◌then◌else◌}
use gemian_leds.LightState.Text.{Bytes}
use gemian_leds.EventLoop.Name.{Threads, set_thread_name}

abbrev renamed : Bytes → Bytes → Bytes
renamed name old = if leb (length name) 15 then name else old

setname_fits : (name old : Bytes) → length name ≤ 15 → renamed name old ≡ name
setname_fits name old h = ground arith

setname_long : (name old : Bytes) → 16 ≤ length name → renamed name old ≡ old
setname_long name old h = ground arith

abbrev threads : Threads Bytes
threads = record {
  setname_np = renamed;
  thread_name = λ t. t;
  setname_fits = setname_fits;
  setname_long = setname_long;
}

abbrev connection_watch : Bytes
connection_watch =
    b'C' ∷ b'o' ∷ b'n' ∷ b'n' ∷ b'e' ∷ b'c' ∷ b't' ∷ b'i' ∷ b'o' ∷ b'n' ∷ b'W' ∷ b'a' ∷ b't' ∷ b'c'
    ∷ b'h' ∷ []

connection_watcher_named :
    set_thread_name threads (connection_watch ++ b'e' ∷ b'r' ∷ []) [] ≡ connection_watch
unfolding set_thread_name
connection_watcher_named = refl
