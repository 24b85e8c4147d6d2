-- ===== src/Bootstrap/Overlap.antt =====
-- Set-ups that overlap (apps/backend/src/routes/bootstrap.ts): the advisory lock, which is held
-- until the transaction is over, and the transaction's timeout.
use minikura.Common.{
  String, Bool, false, Option, none, some, ◌==◌, ◌≡◌, Settled, ok, thrown, if◌then◌else◌,
}
use minikura.Bootstrap.{
  BootstrapInput, Issue, Accounts, Answer, refused, completed, failed, needs_setup, created_result,
  answer_of,
}

-- Where a request is: it waits for the lock; it holds it and has not counted; it has counted no
-- user; its transaction is over while the call that makes the user still runs; it is answered.
pub data Phase : Type 0 where
  waiting holding creating late : BootstrapInput → Phase
  answered : Answer → Phase

-- Requests are told apart by a name. `lock` has the one whose transaction has the lock.
pub record System (s : Accounts) : Type 0 where
  pub accounts : s.State
  pub lock : Option String
  pub phase : String → Phase

abbrev pub arrives : Settled Issue BootstrapInput → Phase
arrives (thrown issue) = Phase.answered (refused issue)
arrives (ok data_) = Phase.waiting data_

abbrev pub put : String → Phase → (String → Phase) → String → Phase
put i p phase j = if i == j then p else phase j

abbrev pub unlocked : String → Option String → Option String
unlocked i none = none
unlocked i (some j) = if i == j then none else some j

module _ (s : Accounts) where
  abbrev pub start : (String → Settled Issue BootstrapInput) → s.State → System s
  start bodies t = record { accounts = t; lock = none; phase = λ i. arrives (bodies i) }

  -- The transaction of a request is over.
  abbrev pub ends : String → Answer → System s → System s
  ends i answer m = record m {
    lock = unlocked i m.lock;
    phase = put i (Phase.answered answer) m.phase;
  }

  abbrev pub locked : String → BootstrapInput → System s → System s
  locked i data_ m = record m { lock = some i; phase = put i (Phase.holding data_) m.phase }

  unfoldable pub counted : String → BootstrapInput → System s → System s
  unfolding needs_setup
  counted i data_ m =
      if needs_setup s m.accounts
      then record m { phase = put i (Phase.creating data_) m.phase }
      else ends i completed m

  abbrev pub created : String → BootstrapInput → System s → System s
  created i data_ m =
      let r = created_result s data_ m.accounts in
      ends i (answer_of r.0) (record m { accounts = r.1 })

  -- The call that makes the user ends after the transaction: its end is answered as a failure.
  abbrev pub created_late : String → BootstrapInput → System s → System s
  created_late i data_ m = record m {
    accounts = (created_result s data_ m.accounts).1;
    phase = put i (Phase.answered failed) m.phase;
  }

  abbrev pub after_timeout : Phase → Phase
  after_timeout (Phase.waiting data_) = Phase.answered failed
  after_timeout (Phase.holding data_) = Phase.answered failed
  after_timeout (Phase.creating data_) = Phase.late data_
  after_timeout (Phase.late data_) = Phase.late data_
  after_timeout (Phase.answered answer) = Phase.answered answer

  abbrev pub timed_out : String → System s → System s
  timed_out i m = record m {
    lock = unlocked i m.lock;
    phase = put i (after_timeout (m.phase i)) m.phase;
  }

  -- One step of one request; timeouts are left out where `timely` is true.
  pub data Step (timely : Bool) (m m' : System s) : Type 0 where
    locks :
        (i : String) (data_ : BootstrapInput)
        → m.phase i ≡ Phase.waiting data_
        → m.lock ≡ none
        → m' ≡ locked i data_ m
        → Step timely m m'
    counts :
        (i : String) (data_ : BootstrapInput)
        → m.phase i ≡ Phase.holding data_
        → m' ≡ counted i data_ m
        → Step timely m m'
    creates :
        (i : String) (data_ : BootstrapInput)
        → m.phase i ≡ Phase.creating data_
        → m' ≡ created i data_ m
        → Step timely m m'
    creates_late :
        (i : String) (data_ : BootstrapInput)
        → m.phase i ≡ Phase.late data_
        → m' ≡ created_late i data_ m
        → Step timely m m'
    times_out : (i : String) → timely ≡ false → m' ≡ timed_out i m → Step timely m m'

  pub data Reach (timely : Bool) (m : System s) : System s → Type 0 where
    here : Reach timely m m
    later : {m' m'' : System s} → Reach timely m m' → Step timely m' m'' → Reach timely m m''
