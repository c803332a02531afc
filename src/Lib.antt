-- ===== src/Lib.antt =====
-- grpc-composition: a Go library that exposes gRPC methods as HTTP handlers. A route builds a request
-- message with its binders, calls one gRPC method, and writes the response as protojson or the error
-- as RFC 7807 problem details; an aggregation is a handler that calls several methods; an App
-- registers routes on a router, forwards allowed headers as gRPC metadata and lists its operations
-- for a documentation generator.
--
-- The parts, by file of the repository:
--   composition.go   `Route`, `ServeHTTP` and the writers: Globals (package variables and `Binder`),
--                    Response (writeError, writeJSON, writeResponse, bindErrorStatus), Route
--                    (Proxy, Map, OnSuccess, WithErrorMapper, WithMarshalOptions, Doc,
--                    operationInfo, ServeHTTP). Proofs: Route/Serve, Route/Info,
--                    Route/Settings, Route/Options and Route/Configured (the package setters and the
--                    options of a route).
--   errors.go        Problem (ProblemDetails and the values of gRPC that it reads), Errors
--                    (rfc7807Mapper, populateDetails, MapReasons, codeToHTTP). Proofs:
--                    Errors/Codes, Errors/Details, Errors/Reasons.
--   aggregate.go     Aggregate. Proofs: Aggregate/Serve.
--   spec.go          Spec.
--   app.go           Patterns (validatePathBinders, patternPathParams), Forward
--                    (WithMetadataForward, forwardMetadata), App and App/Verbs (New, the verb methods,
--                    Handle, Operations, ServeHTTP, Handler). Proofs: Patterns/Params,
--                    Forward/Values, App/Operations, App/Reachable (the Apps that a program can make,
--                    step by step), App/Dispatch.
--   bind/            Bind/Params (binder.go, path.go, query.go, header.go, ctx.go), Bind/Typed
--                    (typed.go), Bind/Enums (its enum binders), Bind/Body (body.go). Proofs:
--                    Bind/Typed/Ints, Bind/Enums/Lookup, Bind/Enums/Documented, Bind/Body/Limit.
--   openapi/         OpenApi (normalizePath, assign and the loop over the routes), OpenApi/Schema
--                    (Schema, Parameter, wellKnownSchema), OpenApi/Components (the generator's table
--                    of schemas), OpenApi/Protos (protoschema.go), OpenApi/Dtos (reflectschema.go),
--                    OpenApi/Generate (operation and Generate of openapi.go). Proofs: OpenApi/Paths,
--                    OpenApi/Params, OpenApi/Templates, OpenApi/Binders, OpenApi/Items,
--                    Components/Outcomes, Components/Steps and Components/Below; Runs, Named and Fuel
--                    of Protos and of Dtos, Dtos/Parts; Generate/References, Generate/Runs,
--                    Generate/Fuel and Generate/Resolved. That the documents admit what is sent:
--                    OpenApi/Json (JSON values, and the keywords of JSON Schema that the generator
--                    uses), Protos/Protojson (the documented JSON of messages), Protos/Shapes and
--                    Components/Ensures (what the generator makes, without its table), Forms, Fields,
--                    Values and Sound of Protos, Dtos/Origins, and Matches, Shown, Entries and
--                    Sound of Generate.
--   examples/basic/  Basic (userServer), Basic/Wiring (the routes of newApp and what they need of the
--                    generated code), Basic/Start (newApp). Proofs: Basic/Users, Basic/Served,
--                    Basic/Sessions (sequences of requests), Basic/Pages (ListUsers),
--                    Basic/Start/Assembled (the App that newApp returns).
--
-- Std models what these use of Go's standard library: strings, strconv, errors, net/http (header
-- names, query values, readers, status texts). Common holds the shared lemmas. Tests runs the
-- theorems on a concrete service, router and metadata map.
--
-- How state is modelled. A Go string is the list of its bytes. A `ResponseWriter` is the list of the
-- calls made on it, oldest first, so "an answer" is a list of calls and what net/http makes of them
-- (a status that it refuses, a body that it drops) is outside. The request is a value that binders
-- return changed, since they consume its body. The state of the services behind the gRPC client is
-- the type `Backend` of the parameter `Host`, threaded through every call of a method. A setter that
-- writes through `*Req` is a function that returns the new message; on an error the message and the
-- request are not returned, since no caller reads them again. The package variables are the record
-- `Globals`, an argument. A nil function or pointer is `none`. A `*Route` that the App, its router
-- and the caller share is its place in the list of the App's routes, so a change through one pointer
-- is seen through the others. A panic at registration is a value of `Result`.
--
-- Numbers. An `int64` or `int` that may be negative is `ℤ`, and the wrap-around of `int64` and of the
-- conversion to `int32` is written out; statuses, lengths and code numbers are ℕ. `int` is 64 bits
-- wide. `strings.ToLower` is ASCII's. All loops are recursion on a list.
--
-- Fuel. Messages and Go types may hold themselves, so `messageRef`, and `dtoSchema` with
-- `addStructFields`, take fuel, the depth of the calls, and give `none` where it runs out. Each call
-- that goes below a message or a named struct puts a new name into the table, so fuel beyond the
-- number of names is enough for messages; between two new names a Go type falls in rank (IsGrounded
-- of Dtos/Parts), so the number of names and one, times the bound of the ranks and one, is enough for
-- Go types and for `Generate`. `strconv.Itoa` takes one more than the number as the bound of its
-- digits.
--
-- Not modelled. The parameter `Host` stands for grpc-go's `status.FromError`, protojson, encoding/json,
-- reflection and contexts; `Router` for http.ServeMux; `Metadata` for the metadata map of gRPC, with
-- its documented laws; `EnumDescriptor` for protoreflect, with its documented lookups;
-- `Protoreflect` and `Reflection` for the methods of protoreflect and reflect that the generator
-- calls; `Stubs` for the code that protoc generates for the example. `Protojson` is the JSON of
-- messages as the ProtoJSON format documents it, a parameter of the theorems on what a document
-- admits; it leaves out floats that are not finite, undeclared numbers of enums, google.protobuf.NullValue,
-- extensions and unpopulated fields. What encoding/json makes of a DTO is not related to the schema of
-- its type. The JSON form of a document is encoding/json's. strconv.ParseFloat and the unmarshallers are arguments of the binders that call
-- them. Panics of nil
-- functions, data races on the package variables and on the users of the example, and the start of
-- the example's process (listener, connection, server) are not modelled.
pub mod Common
pub mod Std
pub mod Problem
pub mod Host
pub mod Spec
pub mod Errors
pub mod Globals
pub mod Response
pub mod Route
pub mod Aggregate
pub mod Bind
pub mod Patterns
pub mod Forward
pub mod App
pub mod OpenApi
pub mod Basic
pub mod Tests
