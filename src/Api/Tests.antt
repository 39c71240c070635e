-- ===== src/Api/Tests.antt =====
-- Runs of the service layer (crates/kms-api), on counters that are a function of the key and on the
-- toy key store.
use gm_kms.Base.{
  ==_refl, ◌-◌, ℕ, some, none, [], ◌∷◌, ◌+◌, ◌++◌, ◌≡◌, ◌≢◌, ◌≤◌, ok, err, Bool, true, false, refl,
  arith, inl, inr, ascii, nat_eq, nat_eq_iff, bytes_Eq, nat_Eq, ◌==◌, ◌&&◌, if◌then◌else◌, is_ok,
  get, All, Bool-cases, sym, List,
}
use gm_kms.Core.Key.{Signature, KeyFilter, aes256_gcm}
use gm_kms.Core.Aad.{be_bytes}
use gm_kms.Keystore.Software.{Keys, KeyEntry, get_key_material, random_bytes}
use gm_kms.Keystore.Software.Lifecycle
use gm_kms.Keystore.Software.Ciphers
use gm_kms.Keystore.Software.Calls.{rotating, deleting, calls}
use gm_kms.Keystore.Software.Toys.{
  toy, fresh, tenant, one_key, aes_entry, there, hello, ecdsa_entry,
}
use gm_kms.Api.Quota.{QuotaConfig, Counters, QuotaKey, keys_of, minute_of, day_of, Readings}
use gm_kms.Api.Quota.Bound.{IsCounting, admitted, admitted_bounded}
use gm_kms.Api.Errors.{quota_exceeded}
use gm_kms.Api.CryptoService.{
  CryptoService, OperationCounter, Sm3Hmac, build_mac_input, encrypt, decrypt, sign, verify, hmac,
  hmac_verify, check_quota,
}
use gm_kms.Api.CryptoService.Access.{IsBlind, operations-IsBlind}
use gm_kms.Api.CryptoService.Counting.{IsRecorded, operations-IsRecorded}
use gm_kms.Api.CryptoService.Mac.{build_mac_input_injective, build_mac_input_confused}
use gm_kms.Api.CryptoService.RoundTrip.{decrypt-encrypt_any}
use gm_kms.Api.KeyService.{KeyService, create_key, list_keys}
use gm_kms.Api.KeyService.Quotas.{Call, creation, deletion, run, create_key-run}
use gm_kms.Api.KeyService.Listing.{list_keys-IsOwned}
use gm_kms.Api.Rotation.{combined}
use gm_kms.Api.Rotation.Repeat.{Sweep, sweep, sweeps, sweeps_rotate, check_and_rotate_emptied}

abbrev Table : Type 0
Table = QuotaKey → ℕ

abbrev same : QuotaKey → QuotaKey → Bool
same (keys_of t) (keys_of u) = t == u
same (minute_of t m) (minute_of u n) = t == u && nat_eq m n
same (day_of t m) (day_of u n) = t == u && nat_eq m n
same _ _ = false

same_refl : (k : QuotaKey) → same k k ≡ true
same_refl (keys_of t) = ==_refl t
same_refl (minute_of t m) = ground (arith, ==_refl t, nat_eq_iff m m)
same_refl (day_of t m) = ground (arith, ==_refl t, nat_eq_iff m m)

same-eq : (k l : QuotaKey) → same k l ≡ true → k ≡ l
same-eq (keys_of t) (keys_of u) h = ground (arith, bytes_Eq.test_iff t u)
same-eq (keys_of t) (minute_of u n) h = absurd (ground arith)
same-eq (keys_of t) (day_of u n) h = absurd (ground arith)
same-eq (minute_of t m) (keys_of u) h = absurd (ground arith)
same-eq (minute_of t m) (minute_of u n) h = ground (arith, bytes_Eq.test_iff t u, nat_eq_iff m n)
same-eq (minute_of t m) (day_of u n) h = absurd (ground arith)
same-eq (day_of t m) (keys_of u) h = absurd (ground arith)
same-eq (day_of t m) (minute_of u n) h = absurd (ground arith)
same-eq (day_of t m) (day_of u n) h = ground (arith, bytes_Eq.test_iff t u, nat_eq_iff m n)

abbrev set : QuotaKey → ℕ → Table → Table
set key n s k = if same k key then n else s k

abbrev table : Counters Table
table = record {
  incr = λ key s. (set key (s key + 1) s, some (s key + 1));
  decr = λ key s. (set key (s key - 1) s, some (s key - 1));
  read = λ key s. if nat_eq (s key) 0 then none else some (s key);
  write = λ key n s. (set key n s, true);
  expire = λ key secs s. (s, true);
}

counting : IsCounting table
counting = record {
  value = λ key s. s key;
  incr_answer = λ key s. ground arith;
  incr_same = λ key s. rw (same_refl key) (omega arith);
  incr_other = λ key other s differ. elim (Bool-cases (same other key)) [
    | inl p ↦ absurd (differ (sym (same-eq other key p)))
    | inr p ↦ rw p refl
  ];
  expire_keeps = λ key other secs s. refl;
}

abbrev config : QuotaConfig
config = record { max_keys = 1; max_requests_per_minute = 2; max_requests_per_day = 100 }

abbrev at : Readings
at = record { first = 120; second = 120 }

abbrev no_counts : Table
no_counts k = 0

admitted_bounded_example :
    (admitted table counting config at tenant 5 no_counts ≤ 2)
    × (admitted table counting config at tenant 5 no_counts ≤ 100)
unfolding counting
admitted_bounded_example = admitted_bounded table counting config at tenant 5 no_counts

-- the operations of the keys, by key
abbrev tally : OperationCounter (ℕ → ℕ)
tally = record {
  increment = λ key_id c. ((λ k. (if nat_eq k key_id then 1 else 0) + c k), c key_id + 1);
  get_count = λ key_id c. c key_id;
}

abbrev service : CryptoService Table (ℕ → ℕ)
service = record {
  keystore = one_key;
  quota_tracker = some no_counts;
  op_counter = some (λ k. 0);
  metrics = [];
}

abbrev sm3 : Sm3Hmac
sm3 = record {
  compute = λ key text. ok (key ++ text);
  verify = λ key text mac. ok (mac == key ++ text);
}

abbrev signature : Signature
signature = record { key_id = 7; version = 1; signature = [] }

operations-IsBlind_example :
    IsBlind table config tally toy at 7
      (ascii "u")
      (encrypt table config tally toy at [] 7 (ascii "hello") none (ascii "u"))
      service
    × IsBlind table config tally toy at 7
        (ascii "u")
        (decrypt table config tally toy at 7 hello none (ascii "u"))
        service
    × IsBlind table config tally toy at 7
        (ascii "u")
        (sign table config tally toy at [] 7 (ascii "hello") (ascii "u"))
        service
    × IsBlind table config tally toy at 7
        (ascii "u")
        (verify table config tally toy at 7 (ascii "hello") signature (ascii "u"))
        service
    × IsBlind table config tally toy at 7
        (ascii "u")
        (hmac table config tally toy sm3 at 7 (ascii "hello") none (ascii "u"))
        service
    × IsBlind table config tally toy at 7
        (ascii "u")
        (hmac_verify table config tally toy sm3 at 7 (ascii "hello") none [] (ascii "u"))
        service
operations-IsBlind_example =
    operations-IsBlind table config tally toy at 7 (ascii "u") [] (ascii "hello") none hello
      signature sm3 service (inr (aes_entry, there, refl))

operations-IsRecorded_example :
    IsRecorded table config tally toy at 7 tenant
      (λ key_id other c. refl)
      service
      (encrypt table config tally toy at [] 7 (ascii "hello") none tenant service)
    × IsRecorded table config tally toy at 7 tenant
        (λ key_id other c. refl)
        service
        (decrypt table config tally toy at 7 hello none tenant service)
    × IsRecorded table config tally toy at 7 tenant
        (λ key_id other c. refl)
        service
        (sign table config tally toy at [] 7 (ascii "hello") tenant service)
    × IsRecorded table config tally toy at 7 tenant
        (λ key_id other c. refl)
        service
        (verify table config tally toy at 7 (ascii "hello") signature tenant service)
    × IsRecorded table config tally toy at 7 tenant
        (λ key_id other c. refl)
        service
        (hmac table config tally toy sm3 at 7 (ascii "hello") none tenant service)
    × IsRecorded table config tally toy at 7 tenant
        (λ key_id other c. refl)
        service
        (hmac_verify table config tally toy sm3 at 7 (ascii "hello") none [] tenant service)
operations-IsRecorded_example =
    operations-IsRecorded table config tally toy at 7 tenant (λ key_id other c. refl) []
      (ascii "hello") none hello signature sm3 service

with_context : ascii "ctx" ≢ []
with_context = cc

build_mac_input_injective_example : (ascii "ctx" ≡ ascii "ctx") × (ascii "m" ≡ ascii "m")
build_mac_input_injective_example =
    build_mac_input_injective (ascii "ctx") (ascii "ctx") (ascii "m") (ascii "m") with_context
      with_context (omega arith) (omega arith) refl

build_mac_input_confused_example :
    build_mac_input none (be_bytes 4 3 ++ (ascii "ctx" ++ ascii "m"))
    ≡ build_mac_input (some (ascii "ctx")) (ascii "m")
build_mac_input_confused_example = build_mac_input_confused (ascii "ctx") (ascii "m") with_context

served : (encrypt table config tally toy at [] 7 (ascii "hello") none tenant service).1 ≡ ok hello
unfolding encrypt Ciphers.encrypt
served = refl

within : is_ok (check_quota table config tally toy at tenant service).1 ≡ true
unfolding check_quota
within = refl

decrypt-encrypt_any_example :
    (decrypt table config tally toy at 7 hello
      (some (ascii "other"))
      tenant
      (record service { keystore = calls 7 tenant (rotating 5 fresh ∷ deleting ∷ []) one_key })).1
    ≡ ok (ascii "hello")
unfolding Lifecycle.delete_key Lifecycle.rotate_key check_quota
decrypt-encrypt_any_example =
    decrypt-encrypt_any table config tally toy 7 tenant at at [] (ascii "hello") none
      (some (ascii "other")) service
      (record service { keystore = calls 7 tenant (rotating 5 fresh ∷ deleting ∷ []) one_key })
      aes_entry hello (rotating 5 fresh ∷ deleting ∷ []) there refl tt (omega arith)
      ((ascii "scalar", refl), (tt, tt)) served refl within

abbrev one_counted : Table
one_counted k = 1

abbrev full : KeyService Table
full = record { keystore = one_key; quota_tracker = some one_counted }

-- a creation, a deletion of the tenant's key, and another creation
abbrev tried : List Call
tried =
    creation 8 0 fresh aes256_gcm (ascii "a")
    ∷ deletion 7
    ∷ creation 8 0 fresh aes256_gcm (ascii "b")
    ∷ []

create_key-run_example :
    create_key table config 8 0 fresh aes256_gcm
      (ascii "new")
      tenant
      (run table config tenant tried full)
    ≡ (run table config tenant tried full, err (quota_exceeded (ascii "keys") 0 0))
create_key-run_example =
    create_key-run table config tenant 8 0 fresh aes256_gcm (ascii "new") tried full one_counted
      refl (omega arith) refl

abbrev any_key : KeyFilter
any_key = record {
  tenant_id = none;
  status = none;
  spec = none;
  tags = none;
  limit = some 5;
  offset = none;
}

list_keys-IsOwned_example :
    All (λ m. m.tenant_id ≡ tenant) (list_keys table config any_key tenant full)
list_keys-IsOwned_example = list_keys-IsOwned table config any_key tenant full

abbrev sweeping : Sweep
sweeping = record { now = 100; later = 100; rotated_at = 100; draw = fresh }

sweeps_rotate_example :
    (d : KeyEntry) × (get 7
        (sweeps tally (combined 90 1000000 1) 7 none (sweeping ∷ sweeping ∷ []) one_key)
      ≡ some d)
    × (d.meta.version ≡ 3)
sweeps_rotate_example =
    sweeps_rotate tally 90 1000000 1 7 none (sweeping ∷ sweeping ∷ []) one_key aes_entry there refl
      (random_bytes 32, refl) ((ascii "scalar", refl), ((ascii "scalar", refl), tt)) (omega arith)
      (inl (omega arith))

abbrev imported : Keys
imported = (7, ecdsa_entry) ∷ []

imported_there : get 7 imported ≡ some ecdsa_entry
unfolding get
imported_there = refl

check_and_rotate_emptied_example :
    (is_ok (sweep tally (combined 90 1000000 1) 7 none sweeping imported).1 ≡ false)
    × (get_key_material 7 tenant (sweep tally (combined 90 1000000 1) 7 none sweeping imported).0
        ≡ ok [])
unfolding gm_kms.Api.Rotation.needs_rotation
check_and_rotate_emptied_example =
    check_and_rotate_emptied tally (combined 90 1000000 1) 7 none sweeping imported ecdsa_entry
      imported_there refl refl refl
