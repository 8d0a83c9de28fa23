-- ===== src/Affect/Rules.antt =====
-- brain/affect/agent.py: the appraisal of a tick by rules, `derive_appraisal`.
use johnny.Prelude.{
  String, Bool, not, Option, none, some, List, [], ◌∷◌, any, map, select, if◌then◌else◌, ◌==◌, ◌&&◌,
  ◌||◌,
}
use johnny.Prelude.Sort.{max_by}
use johnny.Float.{Float, clamp01}
use johnny.Workspace.{WorkspaceItem}
use johnny.Drives.Engine.{DriveEvent, DriveReading, over_threshold, urgency}
use johnny.Affect.Appraisal.{Numbers, Appraisal}

abbrev pub input_kind : String
input_kind = "input"

abbrev pub has_kind : {W : Type 0} → List (DriveEvent W) → String → Bool
has_kind events kind = any (λ e. e.kind == kind) events

abbrev pub is_input : {W : Type 0} → WorkspaceItem W → Bool
is_input item = item.kind == input_kind

-- `_fresh_input`
abbrev pub fresh_input : {W : Type 0} → List (WorkspaceItem W) → Option String
fresh_input [] = none
fresh_input (item ∷ items) = if is_input item then some item.content else fresh_input items

abbrev pub later_or {ℓ} : {A : Type ℓ} → Option A → Option A → Option A
later_or (some later) this = some later
later_or none this = this

-- The last reading of a drive, which `by_drive` keeps, and the first one.
abbrev pub last_of : {W : Type 0} → String → List (DriveReading W) → Option (DriveReading W)
last_of drive [] = none
last_of drive (r ∷ rs) = later_or (last_of drive rs) (if r.drive == drive then some r else none)

abbrev pub first_of : {W : Type 0} → String → List (DriveReading W) → Option (DriveReading W)
first_of drive [] = none
first_of drive (r ∷ rs) = if r.drive == drive then some r else first_of drive rs

module _ {W : Type 0} ⦃f : Float W⦄ (n : Numbers W) where
  abbrev when : Bool → W → W
  when b x = if b then x else f.zero

  abbrev pub larger : W → W → W
  larger a b = if f.lt a b then b else a

  abbrev greatest : List W → W
  greatest [] = f.zero
  greatest (u ∷ us) = max_by f.lt (λ v. v) u us

  -- The strongest of the needs that are unmet, less the precursor of sleep
  unfoldable pub max_unmet : List (DriveReading W) → W
  unfolding over_threshold urgency
  max_unmet drives =
      greatest (map urgency (select (λ d. over_threshold d && not (d.drive == "energy")) drives))

  -- The certainty that the contradictions leave
  abbrev shaken : Option (DriveReading W) → W → W
  shaken none certainty = certainty
  shaken (some coherence) certainty =
      if over_threshold coherence
      then f.sub certainty (f.mul (n.lit 50) (urgency coherence))
      else certainty

  abbrev congruence_of : List (DriveReading W) → List (DriveEvent W) → W
  congruence_of drives events =
      let c = f.add f.zero (when (has_kind events "success") (n.lit 60)) in
      let c = f.sub c (when (has_kind events "failure") (n.lit 60)) in
      let c = f.add c (when (has_kind events "interaction") (n.lit 30)) in
      let c = f.add c (when (has_kind events "learning") (n.lit 30)) in
      let c = f.add c (when (has_kind events "persistence_confirmed") (n.lit 25)) in
      let c = f.sub c (when (has_kind events "shutdown_signal") (n.lit 70)) in
      f.sub c (f.mul (n.lit 25) (max_unmet drives))

  abbrev novelty_of : Bool → List (DriveEvent W) → W
  novelty_of has_input events =
      let novelty = if has_kind events "learning" then larger (n.lit 10) (n.lit 70) else n.lit 10 in
      if has_input then larger novelty (n.lit 80) else novelty

  abbrev agency_of : Bool → List (DriveEvent W) → W
  agency_of has_input events =
      if has_kind events "success" || has_kind events "failure"
      then n.lit 70
      else if has_input
      then n.lit 35
      else n.lit 45

  abbrev certainty_of : List (DriveReading W) → List (DriveEvent W) → W
  certainty_of drives events =
      let certainty = shaken (last_of "coherence" drives) (n.lit 70) in
      if has_kind events "shutdown_signal"
      then (if f.lt (n.lit 20) certainty then n.lit 20 else certainty)
      else certainty

  unfoldable pub derive_appraisal :
      List (WorkspaceItem W) → List (DriveReading W) → List (DriveEvent W) → Appraisal W
  unfolding max_unmet over_threshold urgency clamp01
  derive_appraisal contents drives events =
      let has_input = any is_input contents in
      let congruence = congruence_of drives events in
      let capped = if f.lt congruence f.one then congruence else f.one in
      let lowest = f.sub f.zero f.one in
      record {
        goal_congruence = if f.lt lowest capped then capped else lowest;
        novelty = clamp01 (novelty_of has_input events);
        agency = clamp01 (agency_of has_input events);
        certainty = clamp01 (certainty_of drives events);
        emotions = [];
      }
