-- ===== src/Lib.antt =====
-- Feather runs the pods of a Kubernetes node in several runtimes, and gives every pod a network
-- in which containers and virtual machines reach each other.
--
-- Network models pkg/network. A pod gets a block of addresses from an address manager (Ipv4 for
-- IP4.go, Ipv6 for IP6.go, Addresses for the interface CNAddressManager), whose search loop is
-- Scan and whose two readings of an address are Ip. A network manager sets up the pod: Default
-- for DefaultNetworking.go, MultiRuntime for MultiRuntimeNetworking.go, PodLocal for
-- MultiRuntimePodLocalNetworking.go. They share PodDevices and getNextSubPodIP (Devices, with the
-- addresses of one pod, one after the other, in Sequence and those of two pods in Drift), the
-- bridges, namespaces and retry loops of ContainerNetworking.go (Links), the eBPF programs and
-- route maps of EBPF.go (Bpf), the routes between pods (Routing) and the public interface with
-- LegacyAccess.go and WarrensAccess.go (PublicIface). Pods holds what is shown of the managers.
--
-- Provider models pkg/provider, which creates the pods. Spec is what it reads of a Kubernetes
-- pod, with the types Instance and InstanceVolume; Identifier is identifier.go, Volumes
-- instance_volume.go, Instances instance.go, Pods is pod.go and container.go, and Setup is
-- provider.go and config.go. Of these CreatePod asks the network for the pod's network, makes an
-- instance for every container on the backend that its image names, and records the instances.
-- For them the backends, the pod network manager, the image names and configurations and the
-- listers of Kubernetes are the operations of a record, Host; the tables of the provider with the
-- state of what it calls are the record Provider. A volume has one source, as Kubernetes demands.
--
-- Two backends are modelled by themselves. Provider/Osv is backend_osv.go, which runs virtual
-- machines: Paths, Mounts (the volumes), Images (the pull of an image), Create, Start and Stop
-- hold its operations. It keeps pointers to statuses, so its state has a memory of statuses, the
-- table of pointers into it, and the routines that wait for the end of a virtual machine, each
-- with the pointer that it will write; the end of a virtual machine is a step of its own (exit).
-- Core is the part of that state on which postconditions are stated, Changes what each call does
-- to it, Lifecycle the states in which pointers and routines fit together, Exits and Moves the
-- phases that an instance goes through, Steps the histories of calls and exits, and Histories,
-- Told, Boots, Starts and Refused what is shown. A history never starts an instance that runs;
-- pkg/provider starts an instance once, after it is created. Provider/Containerd is
-- backend_containerd.go: Tasks, Volumes, Options and Create hold its operations, and ReadOnly
-- what is shown of the mounts. What the backends call (capstan, QEMU, the clients of containerd
-- and of image registries, files, processes, JSON) are the operations of the records Machine and
-- Client.
--
-- Storage is the paths and CleanName of pkg/storage, with images.go in Storage/Images. Fledge is
-- pkg/fledge: Utils.go and Taint.go, with GetHighestPodStatus in Highest, and CgroupManagement.go
-- in Cgroups. Store is cmd/fledge/internal/provider/store.go, and WebService the handlers of
-- cmd/fledge/internal/fledgews/Handlers.go that call the provider.
--
-- A call is a function of a state to an Outcome, with a result that is a value or an error
-- (Common/Effects). A Go map is an association list, and a range over it follows the list, so
-- that a statement about all lists is one about all orders. A Go string is a list of bytes.
-- netlink, netns, the ebpf library, the shell, the random numbers and the texts of addresses are
-- the operations of a record, Kernel, over a state of the machine that is a parameter. A
-- condition on them is named where it is used: ArrayMap for a route map, RefusesEmpty for the
-- text of an empty address. Numbers of 32 bits wrap by `% 2 ^ 32`. Logging and waiting are left
-- out.
--
-- Loops: the search for a free address gets one round more than there are addresses in use, and
-- returns within them from a valid state. A retry loop of Links gets a number of rounds, and is
-- `stuck` when they are used up; it returns with any number above that of the failures. All other
-- loops are over lists or over the eight entries of a route map.
--
-- Not modelled: the command line of cmd/fledge and the statistics of its web service; the
-- unpacking of archives in pkg/storage; metrics.go, node.go, stats.go and trace.go of
-- pkg/provider, which report counters, and logging.go and backend_dummy.go, which pass on reads
-- and do nothing (volume.go is commented out); pkg/system and pkg/config, which read files and
-- counters; the C programs of xdp-progs; and the hash of the machine id from which a standalone
-- node takes its subnet, which is an argument. Of the OSv backend the pipe between a process and
-- its file of logs is left out, and of an error of CreateVMTun only what stands beside it is
-- read, as the code does. Expanding variables in the arguments of a container may write through
-- to the command of the pod, with which they share an array; that is not modelled.
pub mod Common
pub mod Network
pub mod Storage
pub mod Provider
pub mod Fledge
pub mod Store
pub mod WebService
pub mod Tests
