-- ===== src/Access/Guards.antt =====
-- The two forms of the staff check agree.
use verilink.Base.{◌≡◌, refl, Option, none, some, arith, if◌then◌else◌}
use verilink.Access.{User, passes, denies, forbidden, require_staff, is_platform_staff}

-- The staff guard lets a request pass exactly when the staff test holds of its user, and denies it
-- as forbidden otherwise, also without a user.
require_staff_iff :
    (u : Option User) → require_staff u ≡ (if is_platform_staff u then passes else denies forbidden)
unfolding require_staff is_platform_staff
require_staff_iff none = refl
require_staff_iff (some u) = ground arith
