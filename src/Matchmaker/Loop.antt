-- ===== src/Matchmaker/Loop.antt =====
-- internal/usecase/match/matchmaker.go: NewMatchmaker, and the loops of processMode, tick and Run.
use vfx.Base.{ℕ, zero, suc, Option, none, some, List, [], ◌∷◌, String, if◌then◌else◌, length, ltb}
use vfx.Base.Int.{ℤ, pos}
use vfx.Match.Platform.{Platform}
use vfx.Match.Ticket.{Ticket}
use vfx.Match.Units.{Party}
use vfx.Match.Matcher.{Matcher, new_matcher, select_group, is_zero}
use vfx.Matchmaker.{Services, Answer, value, failure, pair}

-- What processMode takes beside the services of pair: the pool of a mode, and its gauge.
pub record Intake (S F : Type 0) : Type 0 where
  pub pending : String → S → Answer (List (Ticket F)) × S
  pub set_queue_depth : String → ℕ → S → S

-- Config, less the ports.
pub record Config (F : Type 0) : Type 0 where
  pub interval : ℤ
  pub session_token_ttl : ℕ
  pub players_per_match : ℤ
  pub game_modes : List String
  pub base_rating_window : F
  pub rating_window_growth_per_sec : F
  pub region_relax_after : ℤ

pub record Matchmaker (F : Type 0) : Type 0 where
  pub matcher : Matcher F
  pub interval : ℤ
  pub session_token_ttl : ℕ
  pub candidate_modes : List String

-- 200 milliseconds in nanoseconds
abbrev pub default_interval : ℕ
default_interval = 200_000_000

-- What the select of Run receives: a tick of its ticker, or the end of its context.
pub data Signal : Type 0 where
  ticked stopped : Signal

module _ (p : Platform) where
  open p use {F64}

  unfoldable pub new_matchmaker : Config F64 → Matchmaker F64
  new_matchmaker cfg = record {
    matcher =
        new_matcher p (if is_zero p cfg.players_per_match then pos 2 else cfg.players_per_match)
          (record {
            base_rating_window = cfg.base_rating_window;
            rating_window_growth_per_sec = cfg.rating_window_growth_per_sec;
            region_relax_after = cfg.region_relax_after;
          });
    interval = if is_zero p cfg.interval then pos default_interval else cfg.interval;
    session_token_ttl = cfg.session_token_ttl;
    candidate_modes = cfg.game_modes;
  }

  -- `order` is the order in which the runtime iterates over the map of parties.
  module _ {S : Type 0} (sv : Services S) (intake : Intake S F64) (m : Matchmaker F64)
      (order : List (Party F64) → List (Party F64)) where
    -- The rest of a turn of processMode, where `again` is its next turn. A result is the error that
    -- is returned, if any; none is that the fuel ran out.
    abbrev pub after_pair :
        (S → Option (Option String) × S) → Option String × S → Option (Option String) × S
    after_pair again (some e, s) = (some (some e), s)
    after_pair again (none, s) = again s

    abbrev pub after_group :
        (S → Option (Option String) × S)
        → String
        → Option (List (Ticket F64))
        → S
        → Option (Option String) × S
    after_group again mode none s = (some none, s)
    after_group again mode (some group) s =
        after_pair again (pair sv m.session_token_ttl mode group s)

    abbrev pub after_pending :
        (S → Option (Option String) × S)
        → String
        → ℕ
        → Answer (List (Ticket F64)) × S
        → Option (Option String) × S
    after_pending again mode now (failure e, s) = (some (some e), s)
    after_pending again mode now (value pending, s) =
        let counted = intake.set_queue_depth mode (length pending) s in
        let group = select_group p m.matcher order now pending in
        if ltb (length pending) m.matcher.players_per_match
        then (some none, counted)
        else after_group again mode group counted

    unfoldable pub turns : ℕ → String → ℕ → S → Option (Option String) × S
    turns zero mode now s = (none, s)
    turns (suc fuel) mode now s =
        after_pending (λ t. turns fuel mode now t) mode now (intake.pending mode s)

    unfoldable pub process_mode : ℕ → String → S → Option (Option String) × S
    process_mode fuel mode s = let clock = sv.now s in turns fuel mode clock.0 clock.1

    -- An error is logged, and the next mode is processed.
    abbrev pub after_mode : (S → Option S) → Option (Option String) × S → Option S
    after_mode rest (none, s) = none
    after_mode rest (some e, s) = rest s

    unfoldable pub tick_modes : ℕ → List String → S → Option S
    tick_modes fuel [] s = some s
    tick_modes fuel (mode ∷ modes) s =
        after_mode (λ t. tick_modes fuel modes t) (process_mode fuel mode s)

    unfoldable pub tick : ℕ → S → Option S
    unfolding tick_modes
    tick fuel s = tick_modes fuel m.candidate_modes s

    unfoldable pub run : ℕ → List Signal → S → Option S
    run fuel [] s = some s
    run fuel (stopped ∷ signals) s = some s
    run fuel (ticked ∷ signals) s = elim (tick fuel s) [ none ↦ none | some t ↦ run fuel signals t ]
