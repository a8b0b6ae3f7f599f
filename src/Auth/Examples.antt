-- ===== src/Auth/Examples.antt =====
-- Instances of the libraries and of a server, and the theorem on what is sent applied to them.
use gosn_v.Prelude.{
  ℕ, ◌≡◌, refl, String, Option, none, some, false, [], ◌∷◌, ◌++◌, inl, take, ◌==◌, if◌then◌else◌,
}
use gosn_v.Prelude.Bytes.{codes}
use gosn_v.Session.Types.{KeyParams}
use gosn_v.Crypto.Stream.{repeat}
use gosn_v.Items.Encryption.Libraries.{plain_libraries}
use gosn_v.Auth.Types.{
  AuthLibraries, AuthNetwork, reply, AuthParamsData, SignInData, no_error, SignInInput, ServerError,
  signed, Verifier,
}
use gosn_v.Auth.Keys.{KeyLibraries, generate_keys, generate_challenge}
use gosn_v.Auth.SignIn.{sign_in, cli_sign_in}
use gosn_v.Auth.Params.{process_do_auth_request_response}
use gosn_v.Auth.Token.{token_of_reply, trim_space}
use gosn_v.Auth.SignIn.Mfa.{cli_sign_in_mfa, params_wanted, params_wanted_with, session_wanted}
use gosn_v.Auth.SignIn.Secrecy.{sign_in_hides, seen}

-- The first half of the derived key is the password, the second half is not.
abbrev key_libraries : KeyLibraries
key_libraries = record {
  sha256 = λ s. repeat 1 32;
  argon2_id = λ password salt. take 32 (codes password ++ repeat 0 32) ++ repeat 7 32;
  url_encode = λ bs. "verifier";
  raw_url_encode = λ s. "challenge";
}

abbrev some_key_params : KeyParams
some_key_params = record {
  created = "0";
  identifier = "a@b.c";
  origination = "";
  pw_nonce = "n";
  version = "004";
}

abbrev asked : ServerError
asked = record { tag = "mfa-required"; message = "token"; mfa_key = "mfa_1" }

abbrev the_params : AuthParamsData
the_params = record {
  identifier = "a@b.c";
  password_salt = "";
  password_cost = 0;
  password_nonce = "n";
  version = "004";
}

abbrev the_session : SignInData
the_session = record {
  access_token = "2:abc";
  refresh_token = "2:def";
  access_expiration = 1700000000000;
  refresh_expiration = 1700000000000;
  read_only_access = false;
  access_token_cookie = "";
  refresh_token_cookie = "";
  key_params = some_key_params;
  user = record { uuid = "u"; email = "a@b.c"; protocol_version = "004" };
}

abbrev auth_libraries : AuthLibraries
auth_libraries = record {
  params = λ body. inl the_params;
  server_error = λ body. inl (if body == "asks" then asked else no_error);
  sign_in = λ body. inl the_session;
  register_token = λ body. inl "token";
  path_escape = λ s. s;
  hostname = λ s. none;
  shown = λ status cookies. [];
}

abbrev answering : AuthNetwork
answering sent request =
    reply 200 ("access_token_1=a; Path=/" ∷ " refresh_token_1=b" ∷ []) (inl "{}")

abbrev credentials : SignInInput
credentials = record {
  email = "a@b.c";
  token_name = "";
  token_val = "";
  password = "correct horse";
  api_server = "";
}

sign_in_hides_example :
    seen (sign_in plain_libraries key_libraries auth_libraries answering credentials 0 [])
    ≡ seen (
        sign_in plain_libraries key_libraries auth_libraries answering
          (record credentials { password = "battery staple" })
          0
          [])
unfolding generate_keys
sign_in_hides_example =
    sign_in_hides plain_libraries key_libraries auth_libraries answering credentials
      "battery staple" 0 [] (λ identifier nonce. refl)

-- A server that asks for a token first.
abbrev guarded : AuthNetwork
guarded [] request = reply 401 [] (inl "asks")
guarded (first ∷ []) request = reply 200 [] (inl "{}")
guarded (first ∷ second ∷ sent) request =
    reply 200 ("access_token_1=a; Path=/; Partitioned" ∷ " refresh_token_1=b" ∷ []) (inl "{}")

abbrev cookies : SignInData
cookies = record the_session {
  access_token_cookie = "access_token_1=a";
  refresh_token_cookie = "refresh_token_1=b";
}

abbrev option_or : String × String → Option (String × String) → String × String
option_or k none = k
option_or k (some k') = k'

abbrev the_keys : String × String
the_keys =
    option_or ("", "") (generate_keys plain_libraries key_libraries "correct horse" "a@b.c" "n")

derived : generate_keys plain_libraries key_libraries "correct horse" "a@b.c" "n" ≡ some the_keys
unfolding generate_keys
derived = refl

abbrev verifier : (read : ℕ) → Verifier
verifier read = generate_challenge plain_libraries key_libraries read

cli_sign_in_mfa_example :
    cli_sign_in plain_libraries key_libraries auth_libraries guarded "a@b.c" "correct horse" ""
      (inl " 123456 ")
      0
      1
      []
    ≡ (
      signed (record {
        master_key = the_keys.0;
        key_params = cookies.key_params;
        access_token = cookies.access_token;
        refresh_token = cookies.refresh_token;
        access_expiration = cookies.access_expiration;
        refresh_expiration = cookies.refresh_expiration;
        read_only_access = cookies.read_only_access;
        password_nonce = "n";
        access_token_cookie = "access_token_1=a";
        refresh_token_cookie = "refresh_token_1=b";
      }),
      params_wanted "a@b.c" "" (verifier 0)
          ∷ params_wanted_with "a@b.c" "" "mfa_1" (trim_space " 123456 ") (verifier 1)
          ∷ session_wanted
              (auth_libraries.path_escape "a@b.c")
              ""
              the_keys.1
              "mfa_1"
              (trim_space " 123456 ")
              (verifier 1)
          ∷ [],
    )
unfolding process_do_auth_request_response token_of_reply
cli_sign_in_mfa_example =
    cli_sign_in_mfa plain_libraries key_libraries auth_libraries guarded "a@b.c" "correct horse" ""
      " 123456 " 0 1 asked no_error the_params the_keys.0 the_keys.1 cookies refl refl refl refl
      derived refl refl
