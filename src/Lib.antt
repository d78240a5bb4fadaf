-- ===== src/Lib.antt =====
-- The verification library of the Argo CD operator, a Kubernetes operator that installs and configures
-- Argo CD for each ArgoCD resource.
--
-- The controller (controllers/argocd) reads an ArgoCD resource in the version v1beta1, brings the
-- objects of the cluster in line with it and reports a status. The API server keeps a resource in one
-- version and asks the conversion webhook (api/v1alpha1/argocd_conversion.go) for the other. One
-- reconciliation checks the single sign-on configuration, builds the command lines of the components,
-- issues and renews the tokens of the local users, and computes the status, which the main loop writes.
-- An instance manages namespaces, which its cluster secret lists; watch mappers turn the events of other
-- objects into requests for a reconciliation.
--
-- Base holds the shared names: equality tests, maps as association lists, integers, strings of Go, and
-- the ends of a Go call (done, an error, a panic).
-- Condition is insertOrUpdateConditionsInSlice, removeCondition and createCondition of
-- controllers/argocd/util.go.
-- Args is appendUniqueArgs of controllers/argocd/util.go.
-- Spec holds the fields of api/v1beta1/argocd_types.go that the next three parts read, with IsEnabled,
-- IsRemote, ToLower and UseDex.
-- Sso is reconcileSSO of controllers/argocd/sso.go. reconcileDexResources is an argument.
-- Status is reconcileStatus of controllers/argocd/status.go with all that it calls, and
-- reconcileStatusRepo of controllers/argocd/repo_server.go. A function takes the status to the status
-- with the end of the call; the answers of the API server are one snapshot.
-- LocalUsers is controllers/argocd/localusers.go, with NewSecretWithName of
-- controllers/argoutil/secret.go. The state is the server's and the timers', threaded through every call; an error keeps the state that it leaves.
-- Timers are on a heap, since the closure of a timer reads its flag through a pointer. TimerSafety has
-- the steps by which the state changes.
-- Api is both versions of the resource, and ConvertTo and ConvertFrom with every function that they
-- call. Api.Parts, Api.Agents and Api.Webhooks hold the structs that both versions declare alike.
-- Names is the truncation of names of controllers/argoutil/resource.go.
-- ClientWrapper is pkg/clientwrapper/client.go with the transform of the cache of
-- pkg/cacheutils/utils.go.
-- Namespaces is the management of namespaces: Namespaces.Manage is
-- controllers/argocd/namespaceManagement.go with the functions of controllers/argocd/util.go that it
-- calls, Namespaces.Handlers the handlers of its watches, Namespaces.Removed getNamespacesToDelete, and
-- Namespaces.ClusterSecret the cluster secret of controllers/argocd/secret.go. Of r.ManagedNamespaces
-- the names are kept.
-- Controller is the main loop of controllers/argocd/argocd_controller.go: Controller.Metrics counts the
-- active instances, Controller.Internal is internalReconcile and Controller.Reconcile is Reconcile with
-- updateStatusAndConditionsOfArgoCD. It calls Namespaces, LocalUsers.Timers, Status and Condition; the
-- reconcilers of single resources and of source namespaces are fields of Parts.
-- Deployments is reconcileDeploymentHelper of controllers/argocd/util.go.
-- Workload is getApplicationControllerReplicaCount of controllers/argocd/statefulset.go, with the
-- processors, log settings and images of controllers/argocd/util.go.
-- Mappers is controllers/argocd/custommapper.go.
-- Sources is the source namespaces of applications in controllers/argocd/util.go, Sources.ApplicationSets
-- those of ApplicationSets in controllers/argocd/applicationset.go, and Sources.Restore
-- restoreTrackingLabelsForOrphanedNamespaces of controllers/argocd/argocd_controller.go.
-- Tests has runs on concrete data: servers in memory, instances and objects.
--
-- Code that is not in the repository is a parameter: the API server (Client, with its documented
-- behaviour in IsLawful; Cluster, LiveClient, Api, Server and Parts for the later parts), the glob match, the hash
-- of a long name and the environment (Setup), the clock, durations, integers, UUIDs, JSON and JWT (Runtime, with what is
-- relied on in IsSound), and the types of the Kubernetes modules (Kube). Draws has the readings of the
-- clock and the UUID of one reconciliation.
--
-- All functions are total by structural recursion: there is no fuel. An int64 and a time.Duration are
-- unbounded integers of which the code reads the sign; the length of a list that the code turns into an
-- int32 keeps its wrap-around. A nil slice or map is an empty one, except in the
-- status of a route, the data of an object in the cache and an instance's namespace management, where
-- the code tells them apart. Logs are left out, and so are the texts of
-- wrapped errors in LocalUsers, Sso and Status.
--
-- Not modelled: the construction of deployments, stateful sets, config maps, roles, services, routes,
-- ingresses, network policies and monitoring objects, the source namespaces of notifications,
-- the requeue for a token of Dex, the checksums of the status, the Argo CD agent, exports, notification configurations,
-- certificates, start-up, generated code and tests.
pub mod Base
pub mod Condition
pub mod Args
pub mod Spec
pub mod Sso
pub mod Status
pub mod LocalUsers
pub mod Api
pub mod Names
pub mod ClientWrapper
pub mod Namespaces
pub mod Controller
pub mod Deployments
pub mod Workload
pub mod Mappers
pub mod Sources
pub mod Tests
