-- ===== src/Users/Service/Failures.antt =====
-- Calls of the service that throw.
use minikura.Common.{List, ◌++◌, ◌≡◌, Settled, ok, thrown}
use minikura.Domain.Errors.{Thrown}
use minikura.Users.Store.{UserStore}
use minikura.Users.Service.{World, UserEvent}

-- A call that comes through publishes `news` at the end, and one that throws changes nothing.
abbrev pub Publishes :
    {A : Type 0} {s : UserStore} → List UserEvent → World s → Settled Thrown A × World s → Type 0
Publishes news w (ok a, w') = w'.published ≡ w.published ++ news
Publishes news w (thrown e, w') = w' ≡ w
