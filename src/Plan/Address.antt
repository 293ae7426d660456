-- ===== src/Plan/Address.antt =====
-- Which addresses `validate` accepts.
use netfyr.Base.{◌≤◌, ◌<◌, ◌≡◌, ◌↔◌, ok, arith}
use netfyr.Plan.{Ipv4Address, lifetimes, validate_address}

-- An address may be added exactly when its prefix has at most 32 bits, its resolved valid lifetime
-- is positive, and its resolved preferred lifetime is not longer than the valid one.
pub validate_address_iff :
    (a : Ipv4Address)
    → (validate_address a ≡ ok tt)
      ↔ ((a.prefix_len ≤ 32) × (0 < (lifetimes a).0) × ((lifetimes a).1 ≤ (lifetimes a).0))
unfolding validate_address
validate_address_iff a = (λ h. ground arith, λ (p, v, w). ground arith)
