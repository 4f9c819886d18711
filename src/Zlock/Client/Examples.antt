-- ===== src/Zlock/Client/Examples.antt =====
-- A client whose server answers "retry" twice and then "ok", and one whose server is silent.
use zprocess.Base.{◌+◌, ◌≡◌, refl, true, false, none, some, [], ◌∷◌, bytes}
use zprocess.Zlock.Client.{
  Place, Client, Texts, done, raised, timed_out, acquire, ensure_socket, local_client_id,
  drop_on_error, acquire_loop,
}

abbrev here : Place
here = record { host_name = b'h' ∷ []; pid = b'7' ∷ []; current_thread = b't' ∷ [] }

abbrev plain_texts : Texts
plain_texts = record {
  encode_timeout = λ t. t + 48;
  says_too_many_arguments = λ r. false;
  says_key_error = λ r. false;
}

abbrev patient : Client
patient = record {
  sock = true;
  client_id = some 5;
  default_timeout = 45;
  process_name = [];
  thread_name = [];
  sent = [];
  incoming = some (bytes "retry") ∷ some (bytes "retry") ∷ some (bytes "ok") ∷ [];
  reachable = true;
}

-- a client whose server does not answer
abbrev lonely : Client
lonely = record patient { incoming = none ∷ [] }

no_answer : (acquire here plain_texts 3 (some 9) false lonely).0 ≡ raised timed_out
unfolding acquire ensure_socket local_client_id drop_on_error acquire_loop
no_answer = refl

patient_gets_it : (acquire here plain_texts 3 (some 9) false patient).0 ≡ done 5
unfolding acquire ensure_socket local_client_id drop_on_error acquire_loop
patient_gets_it = refl
