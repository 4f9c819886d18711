-- ===== src/Remote/Server/Phases.antt =====
-- The remote process server seen child by child: the phase that each pid is in, as the four tables of
-- class RemoteProcessServer show it (zprocess/remote/server.py).
use zprocess.Base.{
  ℕ, ◌≡◌, refl, sym, ap, ◌∙◌, Bool, true, false, Option, none, some, List, [], ◌∷◌, ◌==◌,
  if◌then◌else◌, contains, arith, Bool-cases, ==_iff, inl, inr, remove, contains-remove,
}
use mathlib.Core.Path.{subst}
use zprocess.Base.Dict.{Dict, get, del, keys, Unique, get-del, del-Unique}
use zprocess.Remote.Server.{
  Popen, is_same, in_all, remove_all, Server, M, Outcome, done, raised, ◌>>=◌, forget, for_each,
}

-- A child with the address of its parent: it runs, it has been given up by its parent, or it has been
-- seen dead at a time.
pub data Phase : Type 0 where
  absent : Phase
  running orphaned : Popen → ℕ → Phase
  ended : Popen → ℕ → ℕ → Phase

abbrev pub child_of : Phase → Option Popen
child_of absent = none
child_of (running c ip) = some c
child_of (orphaned c ip) = some c
child_of (ended c ip t) = some c

abbrev pub parent_of : Phase → Option ℕ
parent_of absent = none
parent_of (running c ip) = some ip
parent_of (orphaned c ip) = some ip
parent_of (ended c ip t) = some ip

abbrev pub is_orphaned : Phase → Bool
is_orphaned (orphaned c ip) = true
is_orphaned _ = false

abbrev pub ended_at : Phase → Option ℕ
ended_at (ended c ip t) = some t
ended_at _ = none

abbrev pub Owned : ℕ → List Popen → Option Popen → Type 0
Owned p all none = Unit
Owned p all (some c) = (c.pid ≡ p) × (in_all c all ≡ true)

-- The tables have this entry for the pid and no other, and its child is among `_all_children`.
pub record Shows (p : ℕ) (s : Server) (phase : Phase) : Type 0 where
  pub child : get p s.children ≡ child_of phase
  pub parent : get p s.parents ≡ parent_of phase
  pub orphan : contains p s.orphans ≡ is_orphaned phase
  pub time : get p s.time_of_termination ≡ ended_at phase
  pub owned : Owned p s.all_children (child_of phase)

-- The tables are those of a set and of two dicts.
pub record IsTidy (s : Server) : Type 0 where
  pub orphans : Unique s.orphans
  pub children : Unique (keys s.children)
  pub times : Unique (keys s.time_of_termination)

-- The server is in a sound state in which each pid is in the phase that is given for it.
pub record Models (s : Server) (phase : ℕ → Phase) : Type 0 where
  pub tidy : IsTidy s
  pub shows : (p : ℕ) → Shows p s (phase p)

-- A step on one child that succeeds, and what it does to its phase.
abbrev pub Acts : M (Unit {0}) → ℕ → (Phase → Phase) → Server → (ℕ → Phase) → Type 0
Acts body pid change s phase =
    (s' : Server) × (body s ≡ (done tt, s'))
    × Models s' λ p. if pid == p then change (phase p) else phase p

pub Models-ext : (s : Server) (f g : ℕ → Phase) → ((p : ℕ) → f p ≡ g p) → Models s f → Models s g
Models-ext s f g e m = record { tidy = m.tidy; shows = λ p. subst (Shows p s) (e p) (m.shows p) }

pub Unique-remove : (p : ℕ) (xs : List ℕ) → Unique xs → Unique (remove p xs)
unfolding contains remove
Unique-remove p [] u = tt
Unique-remove p (x ∷ xs) u = elim (Bool-cases (p == x)) [
  | inl h ↦ ground (arith, Unique-remove p xs u.1)
  | inr h ↦ ground (arith, contains-remove x p xs, Unique-remove p xs u.1)
]

-- The rest of a computation after a step that is done.
pub resume :
    {A B : Type 0} (m : M A) (f : A → M B) (s s' : Server) (a : A)
    → m s ≡ (done a, s')
    → (m >>= f) s ≡ f a s'
resume {B = B} m f s s' a h =
    ap
      (λ r. elim r.0 as (λ o. Outcome B × Server) [ done x ↦ f x r.1 | raised e ↦ (raised e, r.1) ])
      h

other :
    (p pid : ℕ) (pids : List ℕ)
    → contains pid pids ≡ false
    → contains p pids ≡ true
    → (pid == p) ≡ false
unfolding contains
other p pid [] n h = absurd (ground arith)
other p pid (x ∷ pids) n h = ground (arith, other p pid pids)

pub change_first :
    (change : Phase → Phase) (p pid : ℕ) (pids : List ℕ) (phase : Phase)
    → contains pid pids ≡ false
    → (let first = if pid == p then change phase else phase in
        if contains p pids then change first else first)
      ≡ (if contains p (pid ∷ pids) then change phase else phase)
unfolding contains
change_first change p pid pids phase n = elim (Bool-cases (contains p pids)) [
  | inl h ↦ ground (arith, other p pid pids n h)
  | inr h ↦ ground arith
]

-- A loop over the pids changes the phase of each, and of no other.
pub for_each-Models :
    (body : ℕ → M (Unit {0})) (change : Phase → Phase) (Ready : Phase → Type 0)
    → ((pid : ℕ) (s : Server) (phase : ℕ → Phase)
        → Models s phase
        → Ready (phase pid)
        → Acts (body pid) pid change s phase)
    → (pids : List ℕ) (s : Server) (phase : ℕ → Phase) → Unique pids
    → ((p : ℕ) → contains p pids ≡ true → Ready (phase p))
    → Models s phase
    → (s' : Server) × (for_each body pids s ≡ (done tt, s'))
      × Models s' (λ p. if contains p pids then change (phase p) else phase p)
unfolding for_each contains
for_each-Models body change Ready step [] s phase u r m = (s, refl, m)
for_each-Models body change Ready step (pid ∷ pids) s phase u r m =
    let (s₁, e₁, m₁) = step pid s phase m (r pid (ground arith)) in
    let (s₂, e₂, m₂) =
      for_each-Models body change Ready step pids s₁ _ u.1
        (λ p h.
          subst Ready
            (sym (ap (λ b. if b then change (phase p) else phase p) (other p pid pids u.0 h)))
            (r p (ground arith)))
        m₁ in
    (
      s₂,
      resume (body pid) (λ u. for_each body pids) s s₁ tt e₁ ∙ e₂,
      Models-ext s₂ _ _ (λ p. change_first change p pid pids (phase p) u.0) m₂,
    )

-- A state in which one child has entered a phase and the others have kept theirs.
pub at_pid :
    (s : Server) (pid : ℕ) (x : Phase) (phase : ℕ → Phase)
    → IsTidy s
    → Shows pid s x
    → ((p : ℕ) → (pid == p) ≡ false → Shows p s (phase p))
    → Models s (λ p. if pid == p then x else phase p)
at_pid s pid x phase t this others = record {
  tidy = t;
  shows = λ p. elim (Bool-cases (pid == p)) [
    | inl h ↦
        subst (λ b. Shows p s (if b then x else phase p)) (sym h)
          (subst (λ q. Shows q s x) ((==_iff pid p).0 h) this)
    | inr h ↦ subst (λ b. Shows p s (if b then x else phase p)) (sym h) (others p h)
  ];
}

-- What a step makes of the child it is about.
pub settle :
    (s : Server) (pid : ℕ) (x : Phase) (change : Phase → Phase) (phase : ℕ → Phase)
    → change (phase pid) ≡ x
    → Models s (λ p. if pid == p then x else phase p)
    → Models s (λ p. if pid == p then change (phase p) else phase p)
settle s pid x change phase e = Models-ext s _ _ λ p. elim (Bool-cases (pid == p)) [
  | inl h ↦
      ap (λ b. if b then x else phase p) h
      ∙ sym e
      ∙ ap (λ q. change (phase q)) ((==_iff pid p).0 h)
      ∙ sym (ap (λ b. if b then change (phase p) else phase p) h)
  | inr h ↦ ground arith
]

in_all-remove_all :
    (c d : Popen) (all : List Popen)
    → is_same c d ≡ false
    → in_all d (remove_all c all) ≡ in_all d all
unfolding remove_all
in_all-remove_all c d [] n = refl
in_all-remove_all c d (e ∷ all) n = ground (arith, in_all-remove_all c d all n)

-- The server without the entries of a child, where the orphans and times are still to be given.
abbrev pub without : ℕ → Popen → List ℕ → Dict ℕ → Server → Server
without pid c orphans times s = record s {
  children = del pid s.children;
  parents = del pid s.parents;
  orphans = orphans;
  time_of_termination = times;
  all_children = remove_all c s.all_children;
}

pub forget_child :
    (pid : ℕ) (c : Popen) (ip : ℕ) (s : Server)
    → get pid s.children ≡ some c
    → get pid s.parents ≡ some ip
    → in_all c s.all_children ≡ true
    → forget pid s ≡ (done tt, without pid c s.orphans s.time_of_termination s)
unfolding forget
forget_child pid c ip s a b h = ground arith

Owned-still :
    (pid p : ℕ) (c : Popen) (all : List Popen) (o : Option Popen)
    → c.pid ≡ pid
    → (pid == p) ≡ false
    → Owned p all o
    → Owned p (remove_all c all) o
Owned-still pid p c all none e n h = tt
Owned-still pid p c all (some d) e n h = (h.0, in_all-remove_all c d all (ground arith) ∙ h.1)

-- A child that is forgotten, and struck off the orphans and the times, is absent.
pub without-Models :
    (pid : ℕ) (c : Popen) (orphans : List ℕ) (times : Dict ℕ) (s : Server) (phase : ℕ → Phase)
    → c.pid ≡ pid
    → Unique orphans
    → Unique (keys times)
    → ((p : ℕ) → contains p orphans ≡ (if pid == p then false else contains p s.orphans))
    → ((p : ℕ) → get p times ≡ (if pid == p then none else get p s.time_of_termination))
    → Models s phase
    → Models (without pid c orphans times s) (λ p. if pid == p then absent else phase p)
without-Models pid c orphans times s phase e uo ut ho ht m =
    at_pid (without pid c orphans times s) pid absent phase
      record { orphans = uo; children = del-Unique pid s.children m.tidy.children; times = ut }
      record {
        child = get-del pid pid s.children ∙ ground arith;
        parent = get-del pid pid s.parents ∙ ground arith;
        orphan = ho pid ∙ ground arith;
        time = ht pid ∙ ground arith;
        owned = tt;
      }
      λ p h. record {
        child = ground (arith, get-del p pid s.children, (m.shows p).child);
        parent = ground (arith, get-del p pid s.parents, (m.shows p).parent);
        orphan = ground (arith, ho p, (m.shows p).orphan);
        time = ground (arith, ht p, (m.shows p).time);
        owned = Owned-still pid p c s.all_children _ e h (m.shows p).owned;
      }
