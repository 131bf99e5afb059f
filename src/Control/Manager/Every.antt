-- ===== src/Control/Manager/Every.antt =====
-- What holds of every instance of the supervisor (internal/control/manager.go) holds where some are
-- forgotten.
use slipway.Common.{Text, ◌≡◌, List, [], ◌∷◌, some, Dict, get, put, put_all, get-delete-eq-some}
use slipway.Control.Manager.Types.{RuntimeInstance, Manager}
use slipway.Control.Manager.Lifecycle.{forget, forget_all, excess, trim}
use slipway.Control.Manager.Invariant.Finishing.{Entry, trim-cases}

abbrev pub Every : (Text → RuntimeInstance → Type 0) → Dict RuntimeInstance → Type 0
Every P d = (k : Text) (r : RuntimeInstance) → get k d ≡ some r → P k r

pub forget-Every :
    (P : Text → RuntimeInstance → Type 0) (id : Text) (r : RuntimeInstance) (m : Manager)
    → Every P m.instances
    → Every P (forget id r m).instances
unfolding forget
forget-Every P id r m h k q found = h k q (get-delete-eq-some id k m.instances found).1

forget_all-Every :
    (P : Text → RuntimeInstance → Type 0) (es : List Entry) (m : Manager)
    → Every P m.instances
    → Every P (forget_all es m).instances
unfolding forget_all
forget_all-Every P [] m h = h
forget_all-Every P ((id, r) ∷ es) m h =
    forget_all-Every P es (forget id r m) (forget-Every P id r m h)

pub trim-Every :
    (P : Text → RuntimeInstance → Type 0) (current : Text) (m : Manager)
    → Every P m.instances
    → Every P (trim current m).instances
trim-Every P current m h =
    trim-cases (λ m'. Every P m'.instances) current m h (forget_all-Every P (excess current m) m h)

pub put-Every :
    (P : Text → RuntimeInstance → Type 0) (k : Text) (r : RuntimeInstance)
    (d : Dict RuntimeInstance)
    → P k r
    → Every P d
    → Every P (put k r d)
put-Every P k r d p h = put_all P k r d p (λ j q ne found. h j q found)
