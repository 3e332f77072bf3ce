-- ===== src/Base/Tables.antt =====
-- A table of rows under a primary key. `session.get(Row, id)` is the call `table id`; a write
-- through a row object, or a flushed insert, is `put`.
use Prim.Native.Nat.{ℕ}
use mathlib.Core.Path.{◌≡◌}
use mathlib.Core.Option.{Option, some}
use mathlib.Core.Logic.{◌≢◌}
use native.Mathlib.Omega.{arith}
use cyberlab_kali.Base.Tests.{◌==◌, if◌then◌else◌}

abbrev pub Table {ℓ} : Type ℓ → Type ℓ
Table A = ℕ → Option A

abbrev pub put {ℓ} : {A : Type ℓ} → Table A → ℕ → A → Table A
put t k v j = if k == j then some v else t j

pub put_self {ℓ} : {A : Type ℓ} (t : Table A) (k : ℕ) (v : A) → put t k v k ≡ some v
put_self t k v = ground arith

pub put_ne {ℓ} : {A : Type ℓ} (t : Table A) (k j : ℕ) (v : A) → k ≢ j → put t k v j ≡ t j
put_ne t k j v h = ground arith
