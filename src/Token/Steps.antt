-- ===== src/Token/Steps.antt =====
-- Many goroutines at the token cache: each locked section is a step, under a clock that does not run
-- backwards.
use esignet_relay_authentica.Prelude.{ℕ, ◌≤◌, ◌≡◌, Bool, true, false, eqb, if◌then◌else◌}
use esignet_relay_authentica.Text.{Text, text_eq}
use esignet_relay_authentica.Types.{Time, Result, ok, err}
use esignet_relay_authentica.Token.Defs.{
  Cache, empty_cache, Entry, hit, wait, lead, enter, settle, invalidate,
}

-- Where a goroutine stands: outside, waiting, leading an acquisition begun at a time, or back with a
-- token that it got at a time.
pub data Pc : Type 0 where
  outside waiting : Pc
  leading : Time → Pc
  returned : Text → Time → Pc

abbrev pub is_leading : Pc → Bool
is_leading (leading start) = true
is_leading _ = false

pub record System : Type 0 where
  pub cache : Cache
  pub now : Time
  pub pc : ℕ → Pc

abbrev pub update : (ℕ → Pc) → ℕ → Pc → ℕ → Pc
update f i p j = if eqb i j then p else f j

abbrev pub initial : System
initial = record { cache = empty_cache; now = 0; pc = λ i. outside }

abbrev pub after_entry : Time → Entry → Pc
after_entry now (hit token) = returned token now
after_entry now wait = waiting
after_entry now lead = leading now

abbrev pub after_settle : Time → Result Text → Pc
after_settle now (ok token) = returned token now
after_settle now (err e) = outside

pub data Step (s : System) : System → Type 0 where
  -- The clock goes on.
  elapse : (t : Time) → s.now ≤ t → Step s (record s { now = t })
  -- A goroutine that does not lead enters the loop; so does one that has waited.
  request :
      (i : ℕ)
      → is_leading (s.pc i) ≡ false
      → Step s (record s {
        cache = (enter s.now s.cache).1;
        pc = update s.pc i (after_entry s.now (enter s.now s.cache).0);
      })
  -- One that waits, or holds a token, goes away: its context ended, or the flight failed.
  leave : (i : ℕ) → is_leading (s.pc i) ≡ false → Step s (record s { pc = update s.pc i outside })
  -- The acquisition of a leader ends, with whatever the token endpoint made of it.
  land :
      (i : ℕ) (start : Time) (r : Result (Text × Time))
      → s.pc i ≡ leading start
      → Step s (record s {
        cache = (settle start s.now r s.cache).0;
        pc = update s.pc i (after_settle s.now (settle start s.now r s.cache).1);
      })
  -- A token was refused.
  refuse : (token : Text) → Step s (record s { cache = invalidate token s.cache })

pub data Reach : System → Type 0 where
  start : Reach initial
  next : {s t : System} → Reach s → Step s t → Reach t
