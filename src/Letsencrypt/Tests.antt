-- ===== src/Letsencrypt/Tests.antt =====
-- A server that answers at the third try.
use front_basicrum_go.Base.{
  ℕ, ◌==◌, ◌≤◌, Bytes, [], false, Option, none, some, ◌≡◌, ◌≢◌, ◌↔◌, refl, codes, if◌then◌else◌,
}
use front_basicrum_go.Letsencrypt.{
  Disk, os_getenv_required, domain, domain_ip, append_to_file, prepare_domain_ip, tries, main,
}
use front_basicrum_go.Letsencrypt.Exits.{IsWritable, main-status}

abbrev env : Bytes → Bytes
env name = codes "x"

abbrev disk : Disk
disk = record { open_fails = false; write_fails = false; closed_first = false }

abbrev answer : ℕ → Option ℕ
answer k = if k == 1 then none else if k == 2 then some 503 else some 200

main-status_example :
    ((main env disk answer []).status ≡ 0
      ↔ (env (codes "DOMAIN_IP") ≢ [])
        × (env (codes "DOMAIN") ≢ [])
        × IsWritable disk
        × ((k : ℕ) × (1 ≤ k) × (k ≤ 3) × (answer k ≡ some 200)))
    × ((main env disk answer []).tried ≤ 3)
main-status_example = main-status env disk answer []

three_tries : main env disk answer [] ≡ record { status = 0; hosts = codes "x x\n"; tried = 3 }
unfolding main codes prepare_domain_ip domain_ip os_getenv_required domain append_to_file tries
three_tries = refl
