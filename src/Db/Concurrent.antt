-- ===== src/Db/Concurrent.antt =====
-- dashboard/app/db.py: `transaction` where several requests are served at once. A connection holds
-- SQLite's write lock from BEGIN IMMEDIATE to its commit or rollback, one that waits for the lock for
-- too long raises, and one that is lost is rolled back; a reader sees what was committed last.
use hybrid_tls_lab.Prelude.{
  ℕ, ◌≡◌, ◌≢◌, refl, ap, sym, ◌∙◌, inl, inr, arith, true, false, Option, none, some, List, [], ◌∷◌,
  ◌++◌, All, ◌==◌, if◌then◌else◌, Bool-cases,
}
use mathlib.Core.Path.{subst}
use mathlib.Core.Option.{some-injective}
use mathlib.Core.List.{append-nil, append_assoc}
use hybrid_tls_lab.Db.{
  Database, Result, Error, ok, err, transaction, create_body, complete_body, server_body,
  client_body, create_run, complete_run, record_server, record_client,
}
use hybrid_tls_lab.Db.History.{Write, create, complete, server, client, apply, initial, replay}
use hybrid_tls_lab.Db.Store.{outcomes}

-- The statements of a write.
unfoldable pub body : Write → Database → Result Database
body (create payload now) = create_body payload now
body (complete run_id started now) = complete_body run_id started now
body (server payload started now) = server_body payload started now
body (client payload started now) = client_body payload started now

-- How far a connection has got: not open, waiting for the write lock at BEGIN IMMEDIATE, in a
-- transaction with its view of the database, or with its statements run and what they did.
pub data ConnectionState : Type 0 where
  closed : ConnectionState
  waiting : Write → ConnectionState
  begun : Write → (working : Database) → ConnectionState
  ran : Write → Result Database → ConnectionState

-- The database file, the connection that holds its write lock, all the connections by number, the
-- writes that have ended with what each of them returned, first to last, and what was read, last to
-- first.
pub record World : Type 0 where
  pub committed : Database
  pub lock : Option ℕ
  pub connections : ℕ → ConnectionState
  pub ended : List Write
  pub returned : List (Result (Unit {0}))
  pub seen : List Database

abbrev pub set_state : ℕ → ConnectionState → (ℕ → ConnectionState) → ℕ → ConnectionState
set_state i c connections j = if j == i then c else connections j

-- The lock after the connection i is gone.
abbrev pub release : ℕ → Option ℕ → Option ℕ
release i none = none
release i (some j) = if j == i then none else some j

-- The write of the connection i has ended, and left a database and a result.
abbrev pub after_end : ℕ → Write → Result (Unit {0}) × Database → World → World
after_end i w o s = record {
  committed = o.1;
  lock = none;
  connections = set_state i closed s.connections;
  ended = s.ended ++ w ∷ [];
  returned = s.returned ++ o.0 ∷ [];
  seen = s.seen;
}

-- A step of one of the connections, or of a reader.
pub data Step (s : World) : World → Type 0 where
  connect :
      {i : ℕ} (w : Write)
      → s.connections i ≡ closed
      → Step s (record s { connections = set_state i (waiting w) s.connections })
  begin :
      {i : ℕ} {w : Write}
      → s.connections i ≡ waiting w
      → s.lock ≡ none
      → Step s (record s {
        lock = some i;
        connections = set_state i (begun w s.committed) s.connections;
      })
  time_out :
      {i : ℕ} {w : Write}
      → s.connections i ≡ waiting w
      → Step s (record s { connections = set_state i closed s.connections })
  execute :
      {i : ℕ} {w : Write} {db : Database}
      → s.connections i ≡ begun w db
      → Step s (record s { connections = set_state i (ran w (body w db)) s.connections })
  commit :
      {i : ℕ} {w : Write} {db : Database}
      → s.connections i ≡ ran w (ok db)
      → Step s (after_end i w (ok tt, db) s)
  rollback :
      {i : ℕ} {w : Write} {e : Error}
      → s.connections i ≡ ran w (err e)
      → Step s (after_end i w (err e, s.committed) s)
  lose :
      (i : ℕ)
      → Step s
          (record s { lock = release i s.lock; connections = set_state i closed s.connections })
  read : Step s (record s { seen = s.committed ∷ s.seen })

abbrev pub opened : World
opened = record {
  committed = initial;
  lock = none;
  connections = λ i. closed;
  ended = [];
  returned = [];
  seen = [];
}

pub data Reach : World → Type 0 where
  start : Reach opened
  later : {s t : World} → Reach s → Step s t → Reach t

apply-body : (w : Write) (db : Database) → apply w db ≡ transaction (body w) db
unfolding apply body create_run complete_run record_server record_client
apply-body (create payload now) db = refl
apply-body (complete run_id started now) db = refl
apply-body (server payload started now) db = refl
apply-body (client payload started now) db = refl

replay-append :
    (ws : List Write) (w : Write) (db : Database)
    → replay (ws ++ w ∷ []) db ≡ (apply w (replay ws db)).1
unfolding replay
replay-append [] w db = refl
replay-append (v ∷ ws) w db = replay-append ws w (apply v db).1

outcomes-append :
    (ws : List Write) (w : Write) (db : Database)
    → outcomes (ws ++ w ∷ []) db ≡ outcomes ws db ++ (apply w (replay ws db)).0 ∷ []
unfolding outcomes replay
outcomes-append [] w db = refl
outcomes-append (v ∷ ws) w db = ap (◌∷◌ (apply v db).0) (outcomes-append ws w (apply v db).1)

-- A connection in a transaction holds the lock, and works on what is committed.
abbrev Holds : Option ℕ → Database → ℕ → ConnectionState → Type 0
Holds lock db i closed = Unit
Holds lock db i (waiting w) = Unit
Holds lock db i (begun w working) = (lock ≡ some i) × (working ≡ db)
Holds lock db i (ran w result) = (lock ≡ some i) × (result ≡ body w db)

-- A database that some of the writes that have ended left, the first of them.
abbrev pub IsSnapshot : List Write → Database → Type 0
IsSnapshot ended db =
    (before : List Write) × (after : List Write) × (ended ≡ before ++ after)
    × (db ≡ replay before initial)

record Inv (s : World) : Type 0 where
  committed : s.committed ≡ replay s.ended initial
  returned : s.returned ≡ outcomes s.ended initial
  holds : (i : ℕ) → Holds s.lock s.committed i (s.connections i)
  seen : All (IsSnapshot s.ended) s.seen

snapshots_later :
    (ended : List Write) (w : Write) (dbs : List Database)
    → All (IsSnapshot ended) dbs
    → All (IsSnapshot (ended ++ w ∷ [])) dbs
snapshots_later ended w [] h = tt
snapshots_later ended w (db ∷ dbs) h =
    let (before, after, split, same) = h.0 in
    (
      (before, after ++ w ∷ [], rw split (append_assoc before after (w ∷ [])), same),
      snapshots_later ended w dbs h.1,
    )

same_number : (j i : ℕ) → (j == i) ≡ true → j ≡ i
same_number j i e = ground arith

other_number : (j i : ℕ) → (j == i) ≡ false → some i ≢ some j
other_number j i e = λ same. absurd (ground arith)

-- Every connection holds what it must after the connection i has changed.
set_state-Holds :
    (lock : Option ℕ) (db : Database) (connections : ℕ → ConnectionState) (i : ℕ)
    (c : ConnectionState)
    → Holds lock db i c
    → ((j : ℕ) → (j == i) ≡ false → Holds lock db j (connections j))
    → (j : ℕ) → Holds lock db j (set_state i c connections j)
set_state-Holds lock db connections i c changed others j = elim (Bool-cases (j == i)) [
  | inl e ↦
      subst (λ k. Holds lock db j (if k then c else connections j)) (sym e)
        (subst (λ k. Holds lock db k c) (sym (same_number j i e)) changed)
  | inr e ↦ subst (λ k. Holds lock db j (if k then c else connections j)) (sym e) (others j e)
]

-- A connection that does not hold the lock is in no transaction, and holds what it must under any
-- lock and any database.
not_holder-Holds :
    (lock lock' : Option ℕ) (db db' : Database) (j : ℕ) (c : ConnectionState)
    → lock ≢ some j
    → Holds lock db j c
    → Holds lock' db' j c
not_holder-Holds lock lock' db db' j closed n h = tt
not_holder-Holds lock lock' db db' j (waiting w) n h = tt
not_holder-Holds lock lock' db db' j (begun w working) n h = absurd (n h.0)
not_holder-Holds lock lock' db db' j (ran w result) n h = absurd (n h.0)

-- The transaction of the connection that holds the lock, as a write on what the others have left.
ran-apply :
    (s : World) (i : ℕ) (w : Write) (r : Result Database)
    → Inv s
    → s.connections i ≡ ran w r
    → (s.lock ≡ some i) × (transaction (λ _. r) s.committed ≡ apply w (replay s.ended initial))
ran-apply s i w r v h =
    let (held, current) = subst (Holds s.lock s.committed i) h (v.holds i) in
    (
      held,
      ap (λ o. transaction (λ _. o) s.committed) current
          ∙ sym (apply-body w s.committed)
          ∙ ap (apply w) v.committed,
    )

after_end-Inv :
    (s : World) (i : ℕ) (w : Write) (r : Result Database)
    → Inv s
    → s.connections i ≡ ran w r
    → Inv (after_end i w (transaction (λ _. r) s.committed) s)
after_end-Inv s i w r v h =
    let (held, same) = ran-apply s i w r v h in
    record {
      committed = ap (λ p. p.1) same ∙ sym (replay-append s.ended w initial);
      returned =
          ap (λ (p : Result (Unit {0}) × Database). s.returned ++ p.0 ∷ []) same
          ∙ ap (λ os. os ++ (apply w (replay s.ended initial)).0 ∷ []) v.returned
          ∙ sym (outcomes-append s.ended w initial);
      holds =
          set_state-Holds none (transaction (λ _. r) s.committed).1 s.connections i closed tt
            (λ j other.
              not_holder-Holds s.lock none s.committed _ j (s.connections j)
                (subst (λ l. l ≢ some j) (sym held) (other_number j i other)) (v.holds j));
      seen = snapshots_later s.ended w s.seen v.seen;
    }

-- A step that leaves the file and what has ended as they are.
quiet-Inv :
    (s : World) (lock : Option ℕ) (i : ℕ) (c : ConnectionState)
    → Inv s
    → Holds lock s.committed i c
    → ((j : ℕ) → (j == i) ≡ false → Holds lock s.committed j (s.connections j))
    → Inv (record s { lock = lock; connections = set_state i c s.connections })
quiet-Inv s lock i c v changed others = record {
  committed = v.committed;
  returned = v.returned;
  holds = set_state-Holds lock s.committed s.connections i c changed others;
  seen = v.seen;
}

-- Losing the connection i takes the lock from no other.
release-Holds :
    (lock : Option ℕ) (db : Database) (i j : ℕ) (c : ConnectionState)
    → (j == i) ≡ false
    → Holds lock db j c
    → Holds (release i lock) db j c
release-Holds lock db i j closed other h = tt
release-Holds lock db i j (waiting w) other h = tt
release-Holds lock db i j (begun w working) other h = (ap (release i) h.0 ∙ rw other refl, h.1)
release-Holds lock db i j (ran w result) other h = (ap (release i) h.0 ∙ rw other refl, h.1)

Step-Inv : {s t : World} → Step s t → Inv s → Inv t
Step-Inv {s} (connect {i} w h) v = quiet-Inv s s.lock i (waiting w) v tt (λ j other. v.holds j)
Step-Inv {s} (begin {i} {w} h free) v =
    quiet-Inv s (some i) i (begun w s.committed) v (refl, refl)
      (λ j other.
        not_holder-Holds s.lock (some i) s.committed s.committed j (s.connections j)
          (subst (λ l. l ≢ some j) (sym free) (λ e. cc)) (v.holds j))
Step-Inv {s} (time_out {i} {w} h) v = quiet-Inv s s.lock i closed v tt (λ j other. v.holds j)
Step-Inv {s} (execute {i} {w} {db} h) v =
    let (held, current) = subst (Holds s.lock s.committed i) h (v.holds i) in
    quiet-Inv s s.lock i (ran w (body w db)) v (held, ap (body w) current) (λ j other. v.holds j)
Step-Inv {s} (commit {i} {w} {db} h) v = after_end-Inv s i w (ok db) v h
Step-Inv {s} (rollback {i} {w} {e} h) v = after_end-Inv s i w (err e) v h
Step-Inv {s} (lose i) v =
    quiet-Inv s (release i s.lock) i closed v tt
      (λ j other. release-Holds s.lock s.committed i j (s.connections j) other (v.holds j))
Step-Inv {s} read v = record {
  committed = v.committed;
  returned = v.returned;
  holds = v.holds;
  seen = ((s.ended, [], sym (append-nil s.ended), v.committed), v.seen);
}

Reach-Inv : {s : World} → Reach s → Inv s
unfolding replay outcomes
Reach-Inv start = record { committed = refl; returned = refl; holds = λ i. tt; seen = tt }
Reach-Inv (later r st) = Step-Inv st (Reach-Inv r)

abbrev pub InTransaction : ConnectionState → Type 0
InTransaction closed = ⊥
InTransaction (waiting w) = ⊥
InTransaction (begun w working) = Unit
InTransaction (ran w result) = Unit

-- A transaction works on a database, or has worked on it.
abbrev pub WorksOn : ConnectionState → Database → Type 0
WorksOn closed db = ⊥
WorksOn (waiting w) db = ⊥
WorksOn (begun w working) db = working ≡ db
WorksOn (ran w result) db = result ≡ body w db

holder :
    (lock : Option ℕ) (committed : Database) (i : ℕ) (c : ConnectionState)
    → Holds lock committed i c
    → InTransaction c
    → (lock ≡ some i) × WorksOn c committed
holder lock committed i closed h on = absurd on
holder lock committed i (waiting w) h on = absurd on
holder lock committed i (begun w working) h on = h
holder lock committed i (ran w result) h on = h

-- In every state that concurrent connections can reach, at most one of them is in a transaction, and
-- what it works on is what is committed at that moment: no write is done on a database that another
-- one has changed since.
pub Reach-exclusive :
    {s : World} (i j : ℕ)
    → Reach s
    → InTransaction (s.connections i)
    → InTransaction (s.connections j)
    → (i ≡ j) × WorksOn (s.connections i) s.committed
Reach-exclusive {s} i j r on on' =
    let v = Reach-Inv r in
    let (held, current) = holder s.lock s.committed i (s.connections i) (v.holds i) on in
    let (held', _) = holder s.lock s.committed j (s.connections j) (v.holds j) on' in
    (some-injective _ _ (sym held ∙ held'), current)

-- Any number of connections take their steps in any order: each is opened, waits for the write lock
-- and gives up or takes it, runs its statements, commits or rolls back, or is lost on the way. In
-- every state that they reach, the committed database and what each write returned are those of the
-- writes that have ended, run one after the other in the order in which they ended; and every
-- database that was read is the one that the first so many of them leave.
pub Reach-replay :
    {s : World}
    → Reach s
    → (s.committed ≡ replay s.ended initial)
      × (s.returned ≡ outcomes s.ended initial)
      × All (IsSnapshot s.ended) s.seen
Reach-replay r = let v = Reach-Inv r in (v.committed, v.returned, v.seen)
