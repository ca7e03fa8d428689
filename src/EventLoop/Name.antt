-- ===== src/EventLoop/Name.antt =====
-- `set_thread_name` of src/core/EventLoop.cpp, by which the constructor names the thread of the loop, over
-- what is documented of `pthread_setname_np`.
use gemian_leds.Base.{ℕ, zero, suc, ◌≤◌, ◌≡◌, arith, [], ◌∷◌, length, take, length-take}
use gemian_leds.LightState.Text.{Bytes}

-- Threads `T` with their names. A name of at most 15 bytes fits, with its null, in the 16 bytes that a
-- name may have; a longer one is refused, and leaves the thread as it was. That the system may fail to
-- write the name of another thread is left out.
pub record Threads (T : Type 0) : Type 0 where
  pub setname_np : Bytes → T → T
  pub thread_name : T → Bytes
  pub setname_fits :
      (name : Bytes) (t : T) → length name ≤ 15 → thread_name (setname_np name t) ≡ name
  pub setname_long : (name : Bytes) (t : T) → 16 ≤ length name → setname_np name t ≡ t

abbrev pub max_name_len : ℕ
max_name_len = 15

-- The text of a string up to its first null.
abbrev pub c_str : Bytes → Bytes
c_str [] = []
c_str (zero ∷ cs) = []
c_str (suc c ∷ cs) = suc c ∷ c_str cs

length-c_str : (cs : Bytes) → length (c_str cs) ≤ length cs
length-c_str [] = omega arith
length-c_str (zero ∷ cs) = omega arith
length-c_str (suc c ∷ cs) = omega (arith, length-c_str cs)

module _ {T : Type 0} (pthread : Threads T) where
  unfoldable pub set_thread_name : Bytes → T → T
  set_thread_name name thread =
      let proper_name = take max_name_len name in pthread.setname_np (c_str proper_name) thread

  -- No name is refused for its length: the thread has the first 15 bytes of the name, up to a null.
  pub set_thread_name_lem :
      (name : Bytes) (thread : T)
      → pthread.thread_name (set_thread_name name thread) ≡ c_str (take max_name_len name)
  unfolding set_thread_name
  set_thread_name_lem name thread =
      pthread.setname_fits (c_str (take max_name_len name)) thread
        (omega (arith, length-c_str (take max_name_len name), length-take max_name_len name))
