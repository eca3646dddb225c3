-- ===== src/Tests/Codec.antt =====
-- An encoding of snapshots that is decoded again, in place of the one of prost.
use roammand.Base.{ℕ, zero, suc, ◌≡◌, refl, ap, Option, none, some, List, [], ◌∷◌, Bytes, length}
use roammand.Validation.{DeviceIdentity}
use roammand.Grants.{ControllerGrant, ControllerGrantView}
use roammand.Grants.Files.{HostAuthorizationSnapshot, Codec}

abbrev pub Read : Type 0 → Type 0
Read A = Option (A × List ℕ)

abbrev pub next : {A B : Type 0} → Read A → (A → List ℕ → Read B) → Read B
next none f = none
next (some (a, rest)) f = f a rest

-- What is written before the rest is read from there.
pub record Coder (A : Type 0) : Type 0 where
  pub write : A → List ℕ → List ℕ
  pub read : List ℕ → Read A
  pub back : (a : A) (rest : List ℕ) → read (write a rest) ≡ some (a, rest)

abbrev pub read_number : List ℕ → Read ℕ
read_number [] = none
read_number (n ∷ rest) = some (n, rest)

abbrev pub number : Coder ℕ
number = record { write = λ n rest. n ∷ rest; read = read_number; back = λ n rest. refl }

module _ {A B : Type 0} where
  abbrev pub pair : Coder A → Coder B → Coder (A × B)
  pair a b = record {
    write = λ x rest. a.write x.0 (b.write x.1 rest);
    read = λ l. next (a.read l) (λ x l. next (b.read l) (λ y l. some ((x, y), l)));
    back = λ x rest. rw (a.back x.0 (b.write x.1 rest), b.back x.1 rest) refl;
  }

  abbrev pub convert : (from : B → A) (to : A → B) → ((b : B) → to (from b) ≡ b) → Coder A → Coder B
  convert from to same a = record {
    write = λ b rest. a.write (from b) rest;
    read = λ l. next (a.read l) (λ x l. some (to x, l));
    back = λ b rest. rw (a.back (from b) rest, same b) refl;
  }

module _ {A : Type 0} (a : Coder A) where
  abbrev pub write_all : List A → List ℕ → List ℕ
  write_all [] rest = rest
  write_all (x ∷ xs) rest = a.write x (write_all xs rest)

  abbrev pub read_all : ℕ → List ℕ → Read (List A)
  read_all zero l = some ([], l)
  read_all (suc n) l = next (a.read l) (λ x l. next (read_all n l) (λ xs l. some (x ∷ xs, l)))

  pub read_all-write :
      (xs : List A) (rest : List ℕ) → read_all (length xs) (write_all xs rest) ≡ some (xs, rest)
  read_all-write [] rest = refl
  read_all-write (x ∷ xs) rest = rw (a.back x (write_all xs rest), read_all-write xs rest) refl

  abbrev pub list : Coder (List A)
  list = record {
    write = λ xs rest. length xs ∷ write_all xs rest;
    read = λ l. next (read_number l) read_all;
    back = read_all-write;
  }

  abbrev pub write_option : Option A → List ℕ → List ℕ
  write_option none rest = 0 ∷ rest
  write_option (some x) rest = 1 ∷ a.write x rest

  abbrev pub read_some : ℕ → List ℕ → Read (Option A)
  read_some zero l = some (none, l)
  read_some (suc n) l = next (a.read l) (λ x l. some (some x, l))

  pub read_some-write :
      (o : Option A) (rest : List ℕ)
      → next (read_number (write_option o rest)) read_some ≡ some (o, rest)
  read_some-write none rest = refl
  read_some-write (some x) rest = rw (a.back x rest) refl

  abbrev pub optional : Coder (Option A)
  optional = record {
    write = write_option;
    read = λ l. next (read_number l) read_some;
    back = read_some-write;
  }

abbrev pub bytes : Coder Bytes
bytes = list number

abbrev pub identity : Coder DeviceIdentity
identity =
    convert
      (λ i. (i.device_id, (i.public_key_algorithm, (i.public_key, (i.display_name, i.platform)))))
      (λ x. record {
        device_id = x.0;
        public_key_algorithm = x.1.0;
        public_key = x.1.1.0;
        display_name = x.1.1.1.0;
        platform = x.1.1.1.1;
      })
      (λ i. refl) (pair bytes (pair number (pair bytes (pair bytes number))))

abbrev pub grant : Coder ControllerGrant
grant =
    convert
      (λ g. (g.grant_id, (g.host_device_id, (g.controller, (g.created_at_unix_ms, g.permissions)))))
      (λ x. record {
        grant_id = x.0;
        host_device_id = x.1.0;
        controller = x.1.1.0;
        created_at_unix_ms = x.1.1.1.0;
        permissions = x.1.1.1.1;
      })
      (λ g. refl) (pair bytes (pair bytes (pair (optional identity) (pair number bytes))))

abbrev pub view : Coder ControllerGrantView
view =
    convert (λ v. (v.grant, v.last_successful_connection_at_unix_ms))
      (λ x. record { grant = x.0; last_successful_connection_at_unix_ms = x.1 }) (λ v. refl)
      (pair (optional grant) number)

abbrev pub snapshot : Coder HostAuthorizationSnapshot
snapshot =
    convert (λ s. (s.host_device_id, s.grants)) (λ x. record { host_device_id = x.0; grants = x.1 })
      (λ s. refl) (pair bytes (list view))

abbrev pub decoded : Read HostAuthorizationSnapshot → Option HostAuthorizationSnapshot
decoded none = none
decoded (some (s, rest)) = some s

abbrev pub codec : Codec
codec = record { encode_to_vec = λ s. snapshot.write s []; decode = λ l. decoded (snapshot.read l) }

pub decode-encode_to_vec :
    (s : HostAuthorizationSnapshot) → codec.decode (codec.encode_to_vec s) ≡ some s
decode-encode_to_vec s = ap decoded (snapshot.back s [])
