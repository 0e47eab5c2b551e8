-- ===== src/Rbac/Tests.antt =====
-- The roles and gates on concrete requests.
use wireops.Prelude.{◌≡◌, refl, ◌↔◌, true, false, none, some, []}
use wireops.Go.Text.{codes}
use wireops.Rbac.{Auth, Event, next, unauthorized, role_viewer, require, require_superuser}
use wireops.Rbac.Gates.{IsGranted, require-next_iff, require-refused}

abbrev viewer : Auth
viewer = record {
  id = codes "u1";
  is_superuser = false;
  collection = some (codes "users");
  disabled = false;
  role = role_viewer;
}

abbrev root : Auth
root = record {
  id = codes "r";
  is_superuser = true;
  collection = some (codes "_superusers");
  disabled = false;
  role = [];
}

require-next_iff_example : (require (codes "view_jobs") (some (some viewer)) ≡ next) ↔ (
    (a : Auth) × (◌≡◌ {A = Event} (some (some viewer)) (some (some a)))
    × IsGranted (codes "view_jobs") a)
require-next_iff_example = require-next_iff (codes "view_jobs") (some (some viewer))

require-refused_example : require (codes "manage_users") (some none) ≡ unauthorized
require-refused_example = (require-refused (codes "manage_users")).1

root_passes : require_superuser (some (some root)) ≡ next
unfolding require_superuser
root_passes = refl
