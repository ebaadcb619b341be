-- ===== src/Sync/Semaphore/Init.antt =====
-- The constructor and the destructor of the POSIX `Semaphore`, with what they acquire and give back.
use prot.Prelude.{
  ◌≤◌, ◌<◌, ◌≡◌, inl, inr, Bool-cases, Bool, true, ◌&&◌, ◌||◌, if◌then◌else◌, Option, none, some,
  List, [], ◌∷◌, arith,
}
use prot.Prelude.Int.{ℤ, pos, negsuc, pos_part, neg_part, ◌≤ℤ◌, leb_ℤ, ltb_ℤ}
use prot.Sync.Cond.{Call, acquire, release, memory, cond_attr, cond, mutex, held, nothing, Code, ok}
use prot.Sync.Semaphore.{Sem, maximum_count}

-- What the calls of the system return: for the memory the bit that happens to stand at
-- SDFLAG_TICKCLOCK of the new block, which the constructor does not clear.
pub record InitEnv : Type 0 where
  pub memory : Option Bool
  pub set_clock : Code
  pub cond_init : Code
  pub mutex_init : Code

abbrev pub in_bounds : (i_set i_max : ℤ) → Bool
in_bounds i_set i_max =
    leb_ℤ i_set i_max && leb_ℤ (pos 0) i_set && ltb_ℤ (pos 0) i_max && leb_ℤ i_max maximum_count

-- From the new block on: the object, and the calls that took or gave back something.
unfoldable pub fill : InitEnv → (garbage : Bool) → (i_set i_max : ℤ) → Option Sem × List Call
fill env garbage i_set i_max =
    if ok env.cond_init
    then (if ok env.mutex_init
        then (
          some (record {
            current = i_set;
            maximum = i_max;
            tick_clock = garbage || ok env.set_clock;
          }),
          acquire memory ∷ acquire cond_attr ∷ acquire cond ∷ acquire mutex ∷ [],
        )
        else (
          none,
          acquire memory ∷ acquire cond_attr ∷ acquire cond ∷ release cond ∷ release memory ∷ [],
        ))
    else (none, acquire memory ∷ acquire cond_attr ∷ release memory ∷ [])

-- Behind the test of the arguments.
unfoldable pub allocated : InitEnv → Option Bool → (i_set i_max : ℤ) → Option Sem × List Call
unfolding fill
allocated env none i_set i_max = (none, [])
allocated env (some garbage) i_set i_max = fill env garbage i_set i_max

-- `Semaphore::Semaphore`
unfoldable pub construct : InitEnv → (i_set i_max : ℤ) → Option Sem × List Call
unfolding allocated
construct env i_set i_max =
    if in_bounds i_set i_max then allocated env env.memory i_set i_max else (none, [])

-- `Semaphore::~Semaphore`
unfoldable pub destroy : Option Sem → List Call
destroy none = []
destroy (some s) = release cond ∷ release mutex ∷ release memory ∷ []

-- `0 <= current <= maximum`, and the bounds of the maximum.
pub record IsValid (s : Sem) : Type 0 where
  pub nonneg : neg_part s.current ≡ 0
  pub max_pos : 0 < pos_part s.maximum
  pub within : pos_part s.current ≤ pos_part s.maximum
  pub max_le : pos_part s.maximum ≤ 2109876543

-- What the header promises of the arguments, with the lower bound of the maximum that the code adds.
pub record Accepts (env : InitEnv) (i_set i_max : ℤ) : Type 0 where
  pub set_nonneg : pos 0 ≤ℤ i_set
  pub set_le : i_set ≤ℤ i_max
  pub max_pos : pos 1 ≤ℤ i_max
  pub max_le : i_max ≤ℤ maximum_count
  pub cond_ok : env.cond_init ≡ 0
  pub mutex_ok : env.mutex_init ≡ 0

fill_lem :
    (env : InitEnv) (garbage : Bool) (i_set i_max : ℤ) {s : Sem}
    → (fill env garbage i_set i_max).0 ≡ some s
    → (s.current ≡ i_set) × (s.maximum ≡ i_max) × (env.cond_init ≡ 0) × (env.mutex_init ≡ 0)
unfolding fill
fill_lem env garbage i_set i_max e = ground arith

in_bounds_lem :
    (i_set i_max : ℤ)
    → in_bounds i_set i_max ≡ true
    → (pos 0 ≤ℤ i_set) × (i_set ≤ℤ i_max) × (pos 1 ≤ℤ i_max) × (i_max ≤ℤ maximum_count)
in_bounds_lem i_set i_max e = ground arith

bounds-in :
    (i_set i_max : ℤ)
    → pos 0 ≤ℤ i_set
    → i_set ≤ℤ i_max
    → pos 1 ≤ℤ i_max
    → i_max ≤ℤ maximum_count
    → in_bounds i_set i_max ≡ true
bounds-in i_set i_max p q r t = ground arith

allocated_lem :
    (env : InitEnv) (m : Option Bool) (i_set i_max : ℤ) {s : Sem}
    → (allocated env m i_set i_max).0 ≡ some s
    → (s.current ≡ i_set) × (s.maximum ≡ i_max) × (env.cond_init ≡ 0) × (env.mutex_init ≡ 0)
unfolding allocated
allocated_lem env none i_set i_max e = cc
allocated_lem env (some garbage) i_set i_max e = fill_lem env garbage i_set i_max e

construct_parts :
    (env : InitEnv) (i_set i_max : ℤ) {s : Sem}
    → (construct env i_set i_max).0 ≡ some s
    → Accepts env i_set i_max × (s.current ≡ i_set) × (s.maximum ≡ i_max)
unfolding construct
construct_parts env i_set i_max e = elim (Bool-cases (in_bounds i_set i_max)) [
  | inl t ↦ ground (arith, in_bounds_lem i_set i_max t, allocated_lem env env.memory i_set i_max)
  | inr f ↦ ground arith
]

IsValid-parts :
    (i_set i_max : ℤ)
    → pos 0 ≤ℤ i_set
    → i_set ≤ℤ i_max
    → pos 1 ≤ℤ i_max
    → i_max ≤ℤ maximum_count
    → (neg_part i_set ≡ 0)
      × (0 < pos_part i_max)
      × (pos_part i_set ≤ pos_part i_max)
      × (pos_part i_max ≤ 2109876543)
IsValid-parts (pos a) (pos b) p q r t = omega arith
IsValid-parts (pos a) (negsuc b) p q r t = absurd (omega arith)
IsValid-parts (negsuc a) b p q r t = absurd (omega arith)

-- An object that the constructor makes holds the two arguments and is valid, and the arguments were
-- in the bounds 0 ≤ i_set ≤ i_max, 1 ≤ i_max ≤ MAXIMUM_COUNT with both pthread objects a success.
pub construct-IsValid :
    (env : InitEnv) (i_set i_max : ℤ) {s : Sem}
    → (construct env i_set i_max).0 ≡ some s
    → IsValid s × (s.current ≡ i_set) × (s.maximum ≡ i_max) × Accepts env i_set i_max
construct-IsValid env i_set i_max {s} e =
    let (a, p, q) = construct_parts env i_set i_max e in
    let (v, w, x, y) = IsValid-parts i_set i_max a.set_nonneg a.set_le a.max_pos a.max_le in
    (record { nonneg = rw p v; max_pos = rw q w; within = rw (p, q) x; max_le = rw q y }, p, q, a)

-- In those bounds, with memory and both pthread objects a success, there is an object.
pub construct-Accepts :
    (env : InitEnv) (i_set i_max : ℤ) (garbage : Bool)
    → Accepts env i_set i_max
    → env.memory ≡ some garbage
    → (s : Sem) × ((construct env i_set i_max).0 ≡ some s)
unfolding construct
construct-Accepts env i_set i_max garbage a e = (
  record { current = i_set; maximum = i_max; tick_clock = garbage || ok env.set_clock },
  rw e (ground (arith, bounds-in i_set i_max)),
)

-- After the destructor no memory, condition variable or mutex is left of a constructor's call,
-- whether it made an object or gave up on the way.
pub destroy-construct :
    (env : InitEnv) (i_set i_max : ℤ)
    → let r = construct env i_set i_max in
      let h = held (held nothing r.1) (destroy r.0) in
      (h.memories ≡ 0) × (h.conds ≡ 0) × (h.mutexes ≡ 0)
unfolding construct destroy
destroy-construct env i_set i_max = ground arith
