-- ===== src/Greetings.antt =====
-- schema: greetings_client.h, greetings_client.cpp and greetings_server.h, an exchange of greetings.
pub mod Exchange
pub mod Examples
use Prim.Native.String.{◌++◌ as ◌<>◌}
use xds_client.Base.{ℕ, zero, suc, String, List, [], ◌∷◌, ◌++◌, ◌==◌, if◌then◌else◌}

pub record HelloRequest : Type 0 where
  pub name : String

pub record HelloReply : Type 0 where
  pub message : String

-- `grpc::Status`: in order, or a code with a message.
pub data Status : Type 0 where
  in_order : Status
  failed : ℕ → String → Status

-- `GreeterServiceImpl::SayHello`.
unfoldable pub serve_hello : HelloRequest → HelloReply → Status × HelloReply
serve_hello request reply = (in_order, record reply { message = ("Hello " <> request.name) <> "!" })

-- `GreeterClient::SayHello`, for what the stub's call does: the lines that it prints, and its result.
-- `digits` is what the stream prints for a code.
unfoldable pub say_hello :
    (ℕ → String) → (HelloRequest → HelloReply → Status × HelloReply) → String → List String × String
say_hello digits stub user =
    let (status, reply) = stub (record { name = user }) (record { message = "" }) in
    elim status [
      | in_order ↦ ([], reply.message)
      | failed code text ↦ (((digits code <> ": ") <> text) ∷ [], "gRPC failed")
    ]

-- `std::getline` into a new text, which stays empty when the input has ended.
abbrev read_line : List String → String × List String
read_line [] = ("", [])
read_line (line ∷ rest) = (line, rest)

-- What the first rounds of `interativeGRPC`, whose loop never ends, print for the lines of its
-- input, with what its calls of `SayHello` print.
unfoldable pub interactive :
    (ℕ → String) → ℕ → (HelloRequest → HelloReply → Status × HelloReply) → List String → List String
unfolding say_hello
interactive digits zero stub lines = []
interactive digits (suc rounds) stub lines =
    let (user, rest) = read_line lines in
    let (printed, reply) = say_hello digits stub user in
    let more = "gRPC returned: " ∷ reply ∷ interactive digits rounds stub rest in
    "Please enter your user name:" ∷ printed
    ++ (if reply == "gRPC failed" then "gRPC failed" ∷ more else more)
