-- ===== src/Lib.antt =====
-- The configuration core of freeradius-k8s-operator, an operator that turns the custom resources
-- RadiusCluster, RadiusClient and RadiusPolicy into FreeRADIUS's configuration files, deployments
-- and services.
--
-- How the parts work together. The cluster controller
-- (internal/controller/radiuscluster_controller.go) lists the clients and policies that refer to a
-- cluster, collects the secrets that they mention, copies all of it to the renderer's own types,
-- and calls the renderer. The renderer (internal/renderer) validates every text that will stand in
-- a file, then renders clients.conf, radiusd.conf, one file for each enabled module, and the site
-- with the policies. The controller puts the files into a config map, whose keys an init container
-- turns back into files, and builds the deployments, services, autoscalers, the disruption budget
-- and the objects of the access control. A second init container runs the operator's own command
-- (cmd/operator) in the mode render-clients, which lists the clients again, renders clients.conf
-- and puts the secrets in.
--
-- Shared and its children hold what all parts use: lists, texts, signed integers, and results with
-- `do` blocks. `err` is a Go error, `Check` the result of a function that returns an error alone.
-- An `int32` is a signed integer without a bound, since the code only copies, compares and prints
-- it, except in Controller.Restarts, where the sum of the restarts wraps around at 32 bits;
-- printing takes ten digits, enough for 32 bits. A pointer is an `Option`, a slice a list, a map an
-- association list in which a later assignment stands in front. A text is a sequence of code
-- points.
--
-- Regexp is Go's regexp package on the anchored patterns that the validators use: a pattern, and a
-- match by derivatives. The patterns use classes, sequences, alternatives and repetitions only, on
-- which the leftmost-first rule of Go plays no part in whether the whole text matches.
--
-- Api is api/v1alpha1: Api.Modules the modules, Api.Cluster the configuration of a cluster,
-- Api.Resources the specifications of clients and policies, Api.Objects the resources. The types of
-- k8s.io/api that the operator only passes on are the fields of KubeTypes, a parameter.
--
-- Renderer is internal/renderer. Renderer.Types is the input and the errors (renderer.go),
-- Renderer.Sanitize the patterns and Renderer.Validate the validators (sanitize.go),
-- Renderer.Templates the template functions and the module templates (templates.go,
-- templates/mods-enabled), Renderer.Radiusd the main file (radiusd.go,
-- templates/core/radiusd.conf.tmpl), Renderer.Clients the clients' file (clients.go,
-- templates/core/clients.conf.tmpl), Renderer.Modules the module files (modules.go),
-- Renderer.Conditions the conditions and Renderer.Sites the site (sites.go,
-- templates/sites-enabled/default.tmpl), Renderer.Files the map of files, Renderer.Render the entry
-- point `Render`. A template is the lines that it prints. Executing a parsed template on a value of
-- its own type cannot fail, so those errors have no case. `sort.Slice` is the interface SliceSort,
-- which takes the function `less`, with what Go's documentation promises: a permutation, sorted by
-- every strict weak order, elements of which none is less than the other in any order;
-- Renderer.Sites.Sorting fills it by an insertion sort. Renderer.Clients.Reader reads client
-- sections by FreeRADIUS's syntax, Renderer.Conditions.Meaning has the expressions of unlang; both
-- are specifications and model no code.
--
-- Controller is internal/controller. Controller.Secrets is collectSecretRefs, Controller.Context
-- buildRenderContext and buildRadiusdConfig, Controller.Endpoints buildEndpoints and the labels,
-- Controller.Endpoints.Cleanup cleanupStaleResources, Controller.Errors isInvalidError,
-- Controller.Policies and Controller.Clients the reconcilers of radiuspolicy_controller.go and
-- radiusclient_controller.go, Controller.Outcome what they return, Controller.Quote the verb %q of
-- Go's fmt in their messages, on texts whose characters beyond ASCII are printable.
-- Controller.Clusters is Reconcile and enqueueOwningCluster of radiuscluster_controller.go, by
-- cases on the answer to each request; Controller.Steps has the steps that it takes on objects, one
-- child for each of reconcileOneDeployment, reconcileOneService, reconcileHPAs, reconcilePDB,
-- reconcileRBAC and reconcileConfigMap; Controller.Steps.Wanted has what a cluster asks for, object
-- by object, as a specification that models no code; Controller.Pod is buildPodSpec,
-- Controller.Hashes computeConfigHash, Controller.Restarts countPodRestarts. Controller.Objects are
-- the parts of Kubernetes's objects that the code sets, and Controller.Objects.Store the calls on
-- them with their laws, and what it means that none of them fails, both of which a store in memory
-- fills (Controller.Tests.Memory). Status is internal/status/reporter.go.
--
-- Kube has what the operator calls of Kubernetes, as interfaces: the client's reads, updates and
-- deletions on a state of any type, and SetStatusCondition with what its documentation promises,
-- which Status.Setter fills. That a read finds the last update is a hypothesis of the theorems on
-- the reconcilers, since a cached client may be late.
--
-- Operator is cmd/operator: Operator.Refs is resolveFileRefs, Operator.RenderClients
-- renderClientsToFile (render_clients.go) and runRenderClients (main.go). The files that the
-- command reads do not change while it runs.
--
-- Every loop but one runs over a list or a text, and those functions are total by structural
-- recursion; the fuel of format_int is ten digits. The loop of resolveFileRefs runs on fuel and
-- returns none when it is used up: it can run for ever, and the theorems say when it does and what
-- fuel is enough otherwise.
--
-- Not modelled: main and runOperator (cmd/operator/main.go), which read flags, set up logging and
-- start the manager, and SetupWithManager of the controllers, which register them; the scripts of
-- the init containers, except for the names of the files; metrics, which has no logic;
-- validateReplicas (api/v1alpha1/validation.go), one comparison that only tests use; and generated
-- code. The values of Kubernetes's own types that the code writes out, such as probes, are
-- parameters (Controller.Objects.Literals), and so are SHA-256 and sort.Strings. The laws of the
-- store are those of a single writer, without the fields that the server fills in.
pub mod Shared
pub mod Regexp
pub mod Renderer
pub mod Api
pub mod Kube
pub mod Status
pub mod Controller
pub mod Operator
