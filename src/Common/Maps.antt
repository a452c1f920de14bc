-- ===== src/Common/Maps.antt =====
-- Go maps and pointer stores as functions of their key, with the update of one key.
use Prim.Native.Nat.{ℕ}
use mathlib.Core.Path.{◌≡◌}
use mathlib.Core.Logic.{◌≢◌}
use native.Mathlib.Omega.{arith}
use audio_server.Common.Tests.{◌==◌, if◌then◌else◌}

module _ {ℓ} {V : Type ℓ} where
  abbrev pub update : (ℕ → V) → ℕ → V → ℕ → V
  update m k v j = if k == j then v else m j

  pub update_self : (m : ℕ → V) (k : ℕ) (v : V) → update m k v k ≡ v
  update_self m k v = ground arith

  pub update_ne : (m : ℕ → V) (k : ℕ) (v : V) (j : ℕ) → k ≢ j → update m k v j ≡ m j
  update_ne m k v j h = ground arith
