-- ===== src/Letsencrypt.antt =====
-- cmd/testletsencrypt/main.go: the check of a server with a Let's Encrypt certificate. `env` is
-- os.Getenv; `answer` is what the client answers to each try, the status or none for an error.
mod Tests
pub mod Exits
use front_basicrum_go.Base.{
  ℕ, zero, suc, ◌+◌, ◌==◌, Bytes, List, [], ◌∷◌, ◌++◌, Bool, true, false, Option, none, some,
  is_empty, codes, if◌then◌else◌,
}
use front_basicrum_go.Base.Outcome.{Outcome, returns, panics}

-- A value, or log.Fatal, which ends the process with status 1.
pub data Checked (A : Type 0) : Type 0 where
  value : A → Checked A
  fatal : Checked A

infixl 5 ◌>>=◌
abbrev pub ◌>>=◌ : {A B : Type 0} → Checked A → (A → Checked B) → Checked B
value a >>= f = f a
fatal >>= f = fatal

unfoldable pub os_getenv_required : (Bytes → Bytes) → Bytes → Checked Bytes
os_getenv_required env name =
    let result = env name in if is_empty result then fatal else value result

unfoldable pub domain : (Bytes → Bytes) → Checked Bytes
domain env = os_getenv_required env (codes "DOMAIN")

unfoldable pub domain_ip : (Bytes → Bytes) → Checked Bytes
domain_ip env = os_getenv_required env (codes "DOMAIN_IP")

-- How appendToFile meets the disk: the file may not open, the write may fail, and the goroutine that
-- closes the file may run before the write.
pub record Disk : Type 0 where
  pub open_fails : Bool
  pub write_fails : Bool
  pub closed_first : Bool

-- The text of the file behind appendToFile, or its error; a write to a closed file fails.
unfoldable pub append_to_file : Disk → Bytes → Bytes → Checked Bytes
append_to_file disk file lines =
    if disk.open_fails
    then fatal
    else if disk.closed_first
    then fatal
    else if disk.write_fails
    then fatal
    else value (file ++ lines)

-- prepareDomainIP on the text of /etc/hosts; requireNoError ends the process at an error.
unfoldable pub prepare_domain_ip : (Bytes → Bytes) → Disk → Bytes → Checked Bytes
prepare_domain_ip env disk hosts = do
  ip ← domain_ip env
  name ← domain env
  append_to_file disk hosts (ip ++ b' ' ∷ (name ++ 10 ∷ []))

-- The loop: `left` tries from the try `i` on. The result says whether the server was found, and how
-- many tries were made.
unfoldable pub tries : (ℕ → Option ℕ) → ℕ → ℕ → Bool × ℕ
tries answer zero i = (false, 0)
tries answer (suc left) i =
    let rest = tries answer left (i + 1) in
    elim (answer i) [
      | none ↦ (rest.0, rest.1 + 1)
      | some status ↦ if status == 200 then (true, 1) else (rest.0, rest.1 + 1)
    ]

abbrev pub max_tries : ℕ
max_tries = 3

-- The status of the process, and the text of /etc/hosts and the address where they are reached.
pub record Run : Type 0 where
  pub status : ℕ
  pub hosts : Bytes
  pub tried : ℕ

with_domain : (ℕ → Option ℕ) → Bytes → Checked Bytes → Run
with_domain answer hosts fatal = record { status = 1; hosts = hosts; tried = 0 }
with_domain answer hosts (value name) =
    let (found, tried) = tries answer max_tries 1 in
    record { status = if found then 0 else 1; hosts = hosts; tried = tried }

with_hosts : (Bytes → Bytes) → (ℕ → Option ℕ) → Bytes → Checked Bytes → Run
unfolding with_domain
with_hosts env answer hosts fatal = record { status = 1; hosts = hosts; tried = 0 }
with_hosts env answer hosts (value changed) = with_domain answer changed (domain env)

-- main. Where appendToFile fails the file is taken to be as it was.
unfoldable pub main : (Bytes → Bytes) → Disk → (ℕ → Option ℕ) → Bytes → Run
unfolding with_hosts
main env disk answer hosts = with_hosts env answer hosts (prepare_domain_ip env disk hosts)
