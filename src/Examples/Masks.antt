-- ===== src/Examples/Masks.antt =====
-- Runs of the masks, and their theorems at concrete inputs.
use go_api_management.Base.{◌≡◌, ◌↔◌, refl, arith, codes, length}
use go_api_management.Strings.{fields, split_n, join}
use go_api_management.Masking.{mask_account, mask_email, mask_name}
use go_api_management.Masking.Account.{mask_account_visible_iff}

account_run : mask_account (codes "123456787890") ≡ codes "12******7890"
unfolding mask_account
account_run = refl

email_run : mask_email (codes "jane@x.org") ≡ codes "j***@x.org"
unfolding mask_email split_n
email_run = refl

name_run : mask_name (codes " Jane Doe") ≡ codes "J*** D***"
unfolding mask_name fields join
name_run = refl

mask_account_visible_iff_example :
    (mask_account (codes "123456") ≡ codes "123456") ↔ (length (codes "123456") ≡ 6)
mask_account_visible_iff_example = mask_account_visible_iff (codes "123456") (omega arith)
