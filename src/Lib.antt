-- ===== src/Lib.antt =====
-- The Registry eSignet relay authenticator: the Go package provider, which authenticates a person by
-- a challenge and releases consented attributes from a registry.
--
-- Parts and files, with paths from the root of the repository:
--   Prelude, Text, Json: lists, maps, bytes, UTF-8, and the parts of encoding/json, strings and
--     unicode/utf8 that the source calls. A Go string is a list of bytes.
--   Types: provider/types.go, with the checks validText and validBinding of provider/provider.go. A
--     Go error is a constructor of `Error`, a result with an error a `Result`.
--   Config: provider/config.go, and the address checks of provider/mailpit.go. `Config.Checks` has
--     the field checks, `Config.Validate` the method validate, `Config.Load` the function LoadConfig.
--   Mailpit: provider/mailpit.go. `Verifier` is mailpitVerifier; `reserve`, `store` and `finish` are
--     the locked sections of SendOTP, `check` that of Verify. `Mailpit.Interleaving` has the locked
--     sections of many goroutines as steps, and `Mailpit.History` what one remembers of them.
--   Token: the token cache of provider/http.go. `enter` and `settle` are the locked sections of
--     accessToken, `invalidate` is invalidate. `Token.Steps` has the steps of many goroutines.
--   Provider: provider/provider.go and provider/http.go. `Provider.Runtime` is the state that a call
--     passes on (readings of clock and context so far, requests sent, token cache) and its
--     environment; `Provider.Http` has acquire, accessToken and request, `Provider.Loop` the loop of
--     accessToken, `Provider.Lookup` lookup, `Provider.Context` authContext and restore,
--     `Provider.Psut` psut, `Provider.Assertion` assertion of provider/keys.go, and
--     `Provider.Identity` Authenticate, SendOTP, SupportedClaims, GetAttributes and Subject.
--     `Provider.Keys` has loadKey, from the bytes of the file to the key that signs, and
--     `Provider.Startup` the function New, which makes a `Provider` of a configuration and files.
--     `running` puts its verifier and its key into the environment of a call. `Provider.Spending`
--     counts what an action reads and sends. `Provider.Session`, `Provider.Attributed` and
--     `Provider.Answered` follow a login to the calls with its context, and
--     `Provider.Startup.Completed` a mailed code to the login.
--   Engine: integration/overlay/internal/engine/breg/authenticator.go. `binding` is the method of
--     that name, `engine_send_otp`, `engine_authenticate` and `engine_get_attributes` are SendOTP,
--     Authenticate and GetAttributes of the adapter, over any `Identity`, `init` of `Engine.Startup`
--     is Init. `Engine.Consent` is consent.go beside it.
--   Archive: integration/modulearchive/main.go. `check_all` and `write_all` are the loops of extract,
--     and `main` is main.
--
-- How they interact: Authenticate asks a `ChallengeVerifier` (the Mailpit verifier is one), then
-- lookup, which takes a token from accessToken, which calls acquire or waits for the goroutine that
-- does. Init loads the configuration, has New make the provider, whose
-- key comes from loadKey, and hands it to the adapter. SendOTP of the Mailpit verifier calls deliver.
-- GetAttributes and Subject start from a session context that restore accepts. The adapter makes the
-- binding from the registered clients of the engine and calls the provider.
--
-- Parameters: the clock, the ends of contexts, the HTTP transport, HMAC-SHA-256, SHA-256, the parsers
-- of JSON texts, YAML, URLs, host names, PEM and PKCS keys, the checks and signatures of RSA, P-256,
-- the mail server's answers, the random draws, the registered clients, the verifiers of a
-- deployment, the zip reader and the files. `Env.parse` reads the first JSON text of a body; that
-- nothing is behind it is tested by `decode_json`. A map is an association list with distinct keys.
--
-- Bounds: all recursion is structural but for the printing of decimals and the bit length, on fuel
-- that is at least the number itself, which is more than its digits, and the loop of accessToken.
-- `access_loop` of `Provider.Loop` is that loop on turns as fuel, and `Provider.Looped` tells how many are
-- enough. `access_token` of `Provider.Http`, which the other operations call, takes the list of the
-- flights that it awaits; a wait with none left ends with the context. Times are nanoseconds since the
-- epoch, without the overflow of int64, which clocks do not reach before 2262; a token's lifetime is
-- at most the configured 86400 seconds, and does not wrap either.
--
-- Not modelled: the settings of the HTTP client and of TLS beyond the timeout and the certificates, the
-- deadline of the mail connection (its end is an answer of the server), and the messages that the
-- module archive tool prints.
pub mod Prelude
pub mod Text
pub mod Types
pub mod Mailpit
pub mod Config
pub mod Json
pub mod Token
pub mod Provider
pub mod Engine
pub mod Archive
