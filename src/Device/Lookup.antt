-- ===== src/Device/Lookup.antt =====
-- xcan_get_device.
use xcan_router.Memory.{Ptr, null, Device, Mem, done, crash}
use xcan_router.Prelude.{
  ℕ, zero, suc, ◌<◌, ◌≡◌, refl, sym, subst, ◌≢◌, some, List, [], ◌∷◌, ◌++◌, arith, ==_ne, length,
  take,
}
use xcan_router.Device.{get_device, get_device_from, max_devices}

-- Each slot holds a live device with another id.
abbrev pub OthersOnly : Mem → ℕ → List Ptr → Type 0
OthersOnly m id [] = Unit
OthersOnly m id (p ∷ ps) =
    (p ≢ null) × ((d : Device) × (m.devices p ≡ some d) × (d.id ≢ id)) × OthersOnly m id ps

from-found :
    (n id : ℕ) (m : Mem) (ps qs : List Ptr) (p : Ptr) (d : Device)
    → OthersOnly m id ps
    → p ≢ null
    → m.devices p ≡ some d
    → d.id ≡ id
    → length ps < n
    → get_device_from (take n (ps ++ p ∷ qs)) id m ≡ done p m
unfolding get_device_from
from-found zero id m ps qs p d o ne live e h = absurd (omega arith)
from-found (suc n) id m [] qs p d o ne live e h = ground arith
from-found (suc n) id m (r ∷ ps) qs p d (rne, (x, at, other), o) ne live e h =
    rw (==_ne r null rne, at, ==_ne x.id id other)
      (from-found n id m ps qs p d o ne live e (omega arith))

from-crash :
    (n id : ℕ) (m : Mem) (ps qs : List Ptr)
    → OthersOnly m id ps
    → length ps < n
    → get_device_from (take n (ps ++ null ∷ qs)) id m ≡ crash
unfolding get_device_from
from-crash zero id m ps qs o h = absurd (omega arith)
from-crash (suc n) id m [] qs o h = refl
from-crash (suc n) id m (r ∷ ps) qs (rne, (x, at, other), o) h =
    rw (==_ne r null rne, at, ==_ne x.id id other) (from-crash n id m ps qs o (omega arith))

from-null :
    (n id : ℕ) (m : Mem) (ps : List Ptr)
    → OthersOnly m id ps
    → get_device_from (take n ps) id m ≡ done null m
unfolding get_device_from
from-null zero id m ps o = refl
from-null (suc n) id m [] o = refl
from-null (suc n) id m (r ∷ ps) (rne, (x, at, other), o) =
    rw (==_ne r null rne, at, ==_ne x.id id other) (from-null n id m ps o)

-- The lookup over the pool `ps ++ p ∷ qs`, whose first slots hold devices with other ids: a device
-- with the id at the next slot is found.
pub get_device-found :
    (id : ℕ) (m : Mem) (ps qs : List Ptr) (p : Ptr) {d : Device}
    → m.pool ≡ ps ++ p ∷ qs
    → length ps < max_devices
    → OthersOnly m id ps
    → p ≢ null
    → m.devices p ≡ some d
    → d.id ≡ id
    → get_device id m ≡ done p m
unfolding get_device
get_device-found id m ps qs p {d} e h o ne live at =
    subst (λ (l : List Ptr). get_device_from (take max_devices l) id m ≡ done p m) (sym e)
      (from-found max_devices id m ps qs p d o ne live at h)

-- An empty slot behind devices with other ids is dereferenced, whatever the slots after it hold.
pub get_device-empty_slot :
    (id : ℕ) (m : Mem) (ps qs : List Ptr)
    → m.pool ≡ ps ++ null ∷ qs
    → length ps < max_devices
    → OthersOnly m id ps
    → get_device id m ≡ crash
unfolding get_device
get_device-empty_slot id m ps qs e h o =
    subst (λ (l : List Ptr). get_device_from (take max_devices l) id m ≡ crash) (sym e)
      (from-crash max_devices id m ps qs o h)

-- With a device of another id in every slot the lookup returns NULL.
pub get_device-null : (id : ℕ) (m : Mem) → OthersOnly m id m.pool → get_device id m ≡ done null m
unfolding get_device
get_device-null id m o = from-null max_devices id m m.pool o
