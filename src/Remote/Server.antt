-- ===== src/Remote/Server.antt =====
-- class RemoteProcessServer of zprocess/remote/server.py: the children that it runs for its clients,
-- its timeout. Times are in seconds; addresses and texts are numbers.
pub mod Handler
pub mod Phases
pub mod Polls
pub mod Timeout
pub mod Answers
pub mod Requests
pub mod Forgotten
use zprocess.Base.{
  ℕ, ◌+◌, Bool, true, false, ◌&&◌, Option, none, some, List, [], ◌∷◌, ◌++◌, ◌==◌, ltb,
  if◌then◌else◌, remove,
}
use zprocess.Base.Dict.{Dict, get, put, del, keys, is_some}

-- A child, an object of `subprocess.Popen`. Two children with one pid are told apart by `nth`.
pub record Popen : Type 0 where
  pub pid : ℕ
  pub nth : ℕ

abbrev pub is_same : Popen → Popen → Bool
is_same a b = a.pid == b.pid && a.nth == b.nth

-- `_all_children`, as far as this server put children there
abbrev pub in_all : Popen → List Popen → Bool
in_all c [] = false
in_all c (d ∷ ds) = if is_same d c then true else in_all c ds

unfoldable pub remove_all : Popen → List Popen → List Popen
remove_all c [] = []
remove_all c (d ∷ ds) = let rest = remove_all c ds in if is_same d c then rest else d ∷ rest

-- `terminate` and `kill`
pub data Signal : Type 0 where
  sigterm sigkill : Signal

-- `signalled` has the calls of `terminate` and `kill`, the newest first.
pub record Server : Type 0 where
  pub children : Dict Popen
  pub parents : Dict ℕ
  pub orphans : List ℕ
  pub time_of_termination : Dict ℕ
  pub all_children : List Popen
  pub signalled : List (Popen × Signal)

-- `RemoteProcessServer.__init__`
abbrev pub new_server : Server
new_server = record {
  children = [];
  parents = [];
  orphans = [];
  time_of_termination = [];
  all_children = [];
  signalled = [];
}

pub data Error : Type 0 where
  key_error type_error value_error os_error : Error

pub data Outcome (A : Type 0) : Type 0 where
  done : A → Outcome A
  raised : Error → Outcome A

-- What an exception left changed stays changed.
abbrev pub M : Type 0 → Type 0
M A = Server → Outcome A × Server

abbrev pub raise : {A : Type 0} → Error → M A
raise e s = (raised e, s)

infixl 5 ◌>>=◌ ◌>>◌
abbrev pub ◌>>=◌ : {A B : Type 0} → M A → (A → M B) → M B
◌>>=◌ m f s =
    let (outcome, s') = m s in elim outcome [ done a ↦ f a s' | raised e ↦ (raised e, s') ]

abbrev pub ◌>>◌ : {A B : Type 0} → M A → M B → M B
m >> k = m >>= λ _. k

-- `_all_children.remove(self.children[pid])`, `del self.children[pid]`, `del self.parents[pid]`
unfoldable pub forget : ℕ → M (Unit {0})
forget pid s = elim (get pid s.children) [
  | none ↦ (raised key_error, s)
  | some child ↦
      let s' : Server = record s {
        children = del pid s.children;
        all_children = remove_all child s.all_children;
      } in
      if in_all child s.all_children
      then (if is_some (get pid s.parents)
          then (done tt, record s' { parents = del pid s.parents })
          else (raised key_error, s'))
      else (raised key_error, s)
]

-- What `poll` says of a child: nothing while it runs, and then its return code.
abbrev pub Report : Type 0
Report = Popen → Option ℕ

-- a `for` loop over pids
unfoldable pub for_each : (ℕ → M (Unit {0})) → List ℕ → M (Unit {0})
for_each body [] s = (done tt, s)
for_each body (pid ∷ pids) s = (body pid >> for_each body pids) s

unfoldable pub poll_orphan : Report → ℕ → M (Unit {0})
poll_orphan report pid s = elim (get pid s.children) [
  | none ↦ (raised key_error, s)
  | some child ↦ elim (report child) [
    | none ↦ (done tt, s)
    | some rc ↦ (forget pid >> λ s'. (done tt, record s' { orphans = remove pid s'.orphans })) s
  ]
]

unfoldable pub poll_child : ℕ → Report → ℕ → M (Unit {0})
poll_child now report pid s = elim (get pid s.time_of_termination) [
  | some time ↦ (done tt, s)
  | none ↦ elim (get pid s.children) [
    | none ↦ (raised key_error, s)
    | some child ↦ elim (report child) [
      | none ↦ (done tt, s)
      | some rc ↦ (done tt, record s { time_of_termination = put pid now s.time_of_termination })
    ]
  ]
]

abbrev pub cleanup_interval : ℕ
cleanup_interval = 60

unfoldable pub clean_up : ℕ → ℕ → M (Unit {0})
clean_up now pid s = elim (get pid s.time_of_termination) [
  | none ↦ (raised key_error, s)
  | some time ↦
      if ltb (time + cleanup_interval) now
      then (forget pid >> λ s'.
            (done tt, record s' { time_of_termination = del pid s'.time_of_termination }))
          s
      else (done tt, s)
]

abbrev pub poll_orphans : Report → M (Unit {0})
poll_orphans report s = for_each (poll_orphan report) s.orphans s

abbrev pub poll_children : ℕ → Report → M (Unit {0})
poll_children now report s = for_each (poll_child now report) (keys s.children) s

abbrev pub clean_up_all : ℕ → M (Unit {0})
clean_up_all now s = for_each (clean_up now) (keys s.time_of_termination) s

-- `RemoteProcessServer.timeout`. Orphans are polled first and the other children afterwards, so a
-- child may die in between: `early` and `late` are what the two rounds of polls report.
unfoldable pub timeout : ℕ → Report → Report → M (Unit {0})
timeout now early late = poll_orphans early >> poll_children now late >> clean_up_all now
