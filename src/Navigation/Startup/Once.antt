-- ===== src/Navigation/Startup/Once.antt =====
-- The start-up policy over any sequence of calls: one request at most, and only when all is ready.
use salus_robot.Prelude.{
  ℕ, ◌+◌, ◌≤◌, ◌≡◌, ◌↔◌, ◌⊎◌, Bool, true, false, List, [], ◌∷◌, String, arith, if◌then◌else◌,
}
use salus_robot.Navigation.Startup.{
  StartupState, waiting_inputs, starting, active, ReadinessSnapshot, missing_requirements,
  StartupPolicy, new, observe, activation_succeeded, activation_failed,
}

pub data Event : Type 0 where
  sees : ReadinessSnapshot → Event
  comes_up : Event
  fails : String → Event

-- The number of start requests that a call makes, and the policy that it leaves.
abbrev count : Bool × StartupPolicy → ℕ × StartupPolicy
count (requested, p) = (if requested then 1 else 0, p)

unfoldable pub perform : Event → StartupPolicy → ℕ × StartupPolicy
perform (sees s) p = count (observe s p)
perform comes_up p = (0, activation_succeeded p)
perform (fails reason) p = (0, activation_failed reason p)

unfoldable pub requests : List Event → StartupPolicy → ℕ × StartupPolicy
requests [] p = (0, p)
requests (e ∷ es) p = let (n, q) = perform e p in let (m, r) = requests es q in (n + m, r)

-- Requests still to come at most, in a state; and at least, to be active.
abbrev credit : StartupState → ℕ
credit waiting_inputs = 1
credit _ = 0

abbrev pub is_active : StartupState → Bool
is_active active = true
is_active _ = false

-- 1 in the states that a request leads to.
abbrev requested : StartupState → ℕ
requested starting = 1
requested active = 1
requested _ = 0

perform-credit :
    (e : Event) (p : StartupPolicy)
    → let (n, q) = perform e p in
      (n + credit q.state ≤ credit p.state) × (requested q.state ≤ n + requested p.state)
unfolding perform observe activation_succeeded activation_failed
perform-credit (sees s) p = ground arith
perform-credit comes_up p = ground arith
perform-credit (fails reason) p = ground arith

requests-credit :
    (es : List Event) (p : StartupPolicy)
    → let (n, q) = requests es p in
      (n + credit q.state ≤ credit p.state) × (requested q.state ≤ n + requested p.state)
unfolding requests
requests-credit [] p = (omega arith, omega arith)
requests-credit (e ∷ es) p =
    let (a, b) = perform-credit e p in
    let (c, d) = requests-credit es (perform e p).1 in (omega arith, omega arith)

-- From a policy as it is constructed, whatever is observed and reported, the start is requested at
-- most once, and if the policy is active it was requested exactly once.
pub requests_once :
    (es : List Event)
    → let (n, q) = requests es new in (n ≤ 1) × ((is_active q.state ≡ false) ⊎ (n ≡ 1))
requests_once es = let (a, b) = requests-credit es new in (omega arith, ground arith)

-- What each requirement of the navigation asks for.
pub record Ready (s : ReadinessSnapshot) : Type 0 where
  pub clock : (s.clock_required ≡ false) ⊎ (s.clock_progressive ≡ true)
  pub odometry_moves : s.odometry_progressive ≡ true
  pub odometry_sound : s.odometry_finite ≡ true
  pub transform_there : s.transform_available ≡ true
  pub transform_recent : s.transform_fresh ≡ true
  pub scan_sound : (s.obstacle_detection_required ≡ false) ⊎ (s.scan_valid ≡ true)
  pub scan_recent : (s.obstacle_detection_required ≡ false) ⊎ (s.scan_fresh ≡ true)
  pub keepout : (s.keepout_required ≡ false) ⊎ (s.keepout_ready ≡ true)
  pub manager : s.lifecycle_manager_ready ≡ true

missing_iff : (s : ReadinessSnapshot) → (missing_requirements s ≡ []) ↔ Ready s
unfolding missing_requirements
missing_iff s = (λ e. ground arith, λ r. ground (arith, r.clock))

-- An observation requests the start exactly if the policy waits for inputs and every requirement
-- is met.
pub observe_requests_iff :
    (s : ReadinessSnapshot) (p : StartupPolicy)
    → ((observe s p).0 ≡ true) ↔ ((p.state ≡ waiting_inputs) × Ready s)
unfolding observe
observe_requests_iff s p =
    (λ e. ground (arith, (missing_iff s).0), λ r. ground (arith, (missing_iff s).1 r.1))
